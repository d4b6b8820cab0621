-- ===== src/Worker/Machine.antt =====
-- The machine that a worker runs on: files, directories and commands, by the packages os, os/exec,
-- path/filepath, regexp, bufio, html/template and golang.org/x/sys/unix.
use ccb_operator.Base.{ℕ, Bool, String, Option, List, ◌⊎◌}
use ccb_operator.Base.Bytes.{Bytes}
use ccb_operator.Base.Maps.{Entries}
use ccb_operator.Go.{Error, Action}

-- One call that filepath.Walk makes: a file or directory, or a path that could not be read.
pub data Visit : Type 0 where
  visit : (path : String) (name : String) (is_dir : Bool) → Visit
  unreadable : (path : String) → Error → Visit

pub record Machine (W : Type 0) : Type 0 where
  pub set_rlimit_stack : Action W (Unit {0})
  pub mkdir_temp : String → Action W String
  pub stat : String → Action W (Unit {0})
  pub mkdir_all : String → Action W (Unit {0})
  pub read_file : String → Action W Bytes
  pub write_file : String → Bytes → Action W (Unit {0})
  -- os.Open, os.Create, and io.Copy between a source and a destination that are open
  pub open_file : String → Action W (Unit {0})
  pub create_file : String → Action W (Unit {0})
  pub copy : String → String → Action W (Unit {0})
  pub symlink : String → String → Action W (Unit {0})
  pub remove_all : String → Action W (Unit {0})
  pub walk : String → Action W (List Visit)
  -- The lines of a file by bufio.Scanner, and its error if it stopped at one.
  pub scan_lines : String → Action W (List Bytes × Option Error)
  -- The combined output of a command run in a directory, and its error.
  pub run_command : String → String → List String → Action W (Bytes × Option Error)
  -- regexp.Compile with MatchString
  pub compile : String → Error ⊎ (String → Bool)
  pub join : String → String → String
  pub base : String → String
  -- The second result of filepath.Split.
  pub split_file : String → String
  pub step_file : ℕ → String
  pub text_of : Bytes → String
  -- template.New("tmpl").Parse, and then Execute
  pub parse : Bytes → Error ⊎ (Entries String → Error ⊎ Bytes)
