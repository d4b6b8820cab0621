-- ===== src/Grpc.antt =====
-- pkg/grpc/client.go and options.go: the client of the results service.
use ccb_operator.Base.{ℕ, Bool, String, Option}
use ccb_operator.Base.Maps.{Entries}
use ccb_operator.Go.{Error, Action, pure, ◌>>=◌}
use ccb_operator.Flags.{Flag, string_var}

-- proto.GetDataResponse
pub record GetDataResponse : Type 0 where
  pub results : String
  pub created_at : String

-- proto.StoreResponse
pub record StoreResponse : Type 0 where
  pub message : String

-- The interface Client, as its callers see it. `none` is a nil response. `code_not_found` is the test `status.Code(err) == codes.NotFound`.
pub record ResultsClient (W : Type 0) : Type 0 where
  pub get_data : Entries String → Action W (Option GetDataResponse)
  pub store_data : Entries String → String → Action W StoreResponse
  pub code_not_found : Error → Bool

-- The connection to the server and the client that is generated for it. A call ends with an error
-- after its time, in nanoseconds.
pub record Connection (W : Type 0) : Type 0 where
  pub get_data : ℕ → Entries String → Action W (Option GetDataResponse)
  pub store_data : ℕ → Entries String → String → Action W StoreResponse
  pub close : Action W (Unit {0})

abbrev pub ten_seconds : ℕ
ten_seconds = 10000000000

-- NewClient: `dial` is grpc.NewClient, and `code_not_found` the test on the status of an error.
unfoldable pub new_client :
    {W : Type 0}
    → (dial : String → Action W (Connection W)) → (code_not_found : Error → Bool) → String
    → Action W (ResultsClient W)
new_client dial code_not_found address = do
  connection ← dial address
  pure (record {
    get_data = connection.get_data ten_seconds;
    store_data = connection.store_data ten_seconds;
    code_not_found = code_not_found;
  })

-- Close, which the program does not call.
unfoldable pub close : {W : Type 0} → Connection W → Action W (Unit {0})
close connection = connection.close

pub record GrpcOptions : Type 0 where
  pub address : String

abbrev pub default_grpc_options : GrpcOptions
default_grpc_options = record { address = "results-handler:50051" }

-- Bind, into the options that contain these.
unfoldable pub bind_grpc : {O : Type 0} → ((GrpcOptions → GrpcOptions) → O → O) → Flag O
bind_grpc within = string_var "grpc-address" λ value. within λ o. record o { address = value }
