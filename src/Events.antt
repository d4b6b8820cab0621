-- ===== src/Events.antt =====
-- What a watch hands to a controller's handler, and the requests that the handler adds to the
-- work queue.
use ccb_operator.Base.{List}
use ccb_operator.Api.Meta.{ObjectKey}

-- An update carries the old and the new object.
pub data Event (A : Type 0) : Type 0 where
  create : A → Event A
  update : A → A → Event A
  delete : A → Event A
  generic : A → Event A

-- The requests that one event adds, in order.
abbrev pub Requests : Type 0
Requests = List ObjectKey
