-- ===== src/Workspace/Manifest.antt =====
-- The Kubernetes objects that the watch streams and lists deliver, as far as the caches read them.
use mlflow_integration.Shared.{String, Option, List, Failure}
use mlflow_integration.Shared.Dict.{Dict}
use mlflow_integration.Shared.Json.{Json}

-- `V1ObjectMeta`; absent annotations are an empty dictionary.
pub record Metadata : Type 0 where
  pub name : Option String
  pub namespace : Option String
  pub resource_version : Option String
  pub annotations : Dict String String

-- A typed object of the client: `V1Namespace`, `V1Secret`.
pub record Manifest : Type 0 where
  pub metadata : Option Metadata
  pub contents : Dict String String

-- event["type"]; `other` is any other value, or none.
pub data EventType : Type 0 where
  added modified deleted bookmark error other : EventType

-- event["object"]: absent, a parsed JSON value, or a typed object.
pub data EventObject : Type 0 where
  missing : EventObject
  raw : Json → EventObject
  typed : Manifest → EventObject

pub record Event : Type 0 where
  pub type : EventType
  pub payload : EventObject

-- The answer of a list call.
pub record Listing (A : Type 0) : Type 0 where
  pub items : List A
  pub resource_version : Option String

-- What a watch stream does, in order: it delivers an event, or the cache is stopped meanwhile.
pub data Tick : Type 0 where
  event : Event → Tick
  stop : Tick

-- How the stream ends: cleanly, or by an exception.
pub data Ending : Type 0 where
  exhausted : Ending
  failed : Failure → Ending
