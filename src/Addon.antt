-- ===== src/Addon.antt =====
-- hook/template/addons.py: the hook that runs in the proxy for each request and response. What it calls
-- of the proxy's SDK and of Python is a parameter, and so is the socket: a function on the state of the
-- daemon behind it.
pub mod Path
pub mod Body
pub mod Client
pub mod Apply
pub mod Hook
pub mod Walking
pub mod RoundTrip
pub mod Inert
pub mod Extraction
pub mod Blocking
mod Tests
use reqable_mcp.Prelude.{ℕ, String, Bool, Option, List}
use reqable_mcp.Prelude.Int.{ℤ}
use reqable_mcp.Prelude.Dict.{Dict}
use reqable_mcp.Json.{Json, Fields}

-- The SDK: headers by name, the parts of a multipart body, whether the setter of a status code takes a
-- code, and the text that a body set to a dictionary has. A part that cannot be built is `none`.
pub record Sdk : Type 1 where
  pub Headers : Type 0
  pub Part : Type 0
  pub header : Headers → String → Option String
  pub set_header : String → String → Headers → Headers
  pub part_name : Part → Option String
  pub text_part : String → String → Option Part
  pub file_part : String → String → Option Part
  pub takes_code : ℤ → Bool
  pub of_dict : Fields → String

-- Python: `json.loads` and `json.dumps` on text, `int` of a text, `s.lstrip("-").isdigit()`, and
-- `re.subn`, which is `none` where it raises `re.error`.
pub record Runtime : Type 0 where
  pub loads : String → Option Json
  pub dumps : Json → String
  pub int_of : String → Option ℤ
  pub is_digits : String → Bool
  pub subn : String → String → String → ℤ → ℤ → Option (String × ℕ)

-- What a body is: text, text that was parsed in place, parts, or something else.
pub data Payload (P : Type 0) : Type 0 where
  text : String → Payload P
  parsed : Fields → Payload P
  parts : List P → Payload P
  other : Payload P

-- The socket: `_ipc_call`, which gives the reply or `None`.
pub record Socket (D : Type 0) : Type 0 where
  pub ipc_call : String → Dict Json → D → Option Json × D

pub record Context : Type 0 where
  pub host : String
  pub uid : String
  pub highlight : ℕ
  pub comment : Option String

module _ (sdk : Sdk) where
  open sdk use {Headers, Part}

  -- a request, or a response with the method and the path of its request
  pub record Message : Type 0 where
    pub method : String
    pub path : String
    pub code : Option ℤ
    pub headers : Headers
    pub body : Payload Part

  -- all that a rule may change
  pub record Flight (D : Type 0) : Type 0 where
    pub context : Context
    pub msg : Message
    pub daemon : D
