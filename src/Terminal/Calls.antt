-- ===== src/Terminal/Calls.antt =====
-- web/main.go: the calls of the page beside initConnection, the console's output, and the settings of the
-- obfuscation that the page's globals carry.
use ssheasy.Base.{Bool, true, false, List, [], ◌∷◌, Option, none, some}
use ssheasy.Base.Int.{ℤ}
use ssheasy.Base.Text.{Bytes}
use ssheasy.Terminal.{JsValue}

-- A global of the page, by the type that Type() tells.
pub data JsGlobal : Type 0 where
  boolean : Bool → JsGlobal
  string : Bytes → JsGlobal
  other_type : JsGlobal

-- obfsClientEnabled, of OBFS_ENABLED
unfoldable pub obfs_client_enabled : JsGlobal → Bool
obfs_client_enabled (boolean b) = b
obfs_client_enabled (string s) = true
obfs_client_enabled other_type = true

-- obfsClientKey, of OBFS_KEY
unfoldable pub obfs_client_key : JsGlobal → Bytes
obfs_client_key (boolean b) = []
obfs_client_key (string s) = s
obfs_client_key other_type = []

-- What a call of the page does: nothing, a panic, or its effect.
pub data Effect (A : Type 0) : Type 0 where
  ignored panics : Effect A
  does : A → Effect A

abbrev effect_of : {A : Type 0} → Option A → Effect A
effect_of none = panics
effect_of (some x) = does x

-- acceptFP: the answer that goes into the channel fpAccepted.
unfoldable pub accept_fp : List JsValue → Effect Bool
accept_fp [] = ignored
accept_fp (v ∷ vs) = effect_of v.bool

-- changeWindowSize: the rows and columns of WindowChange; `session` says whether there is a session.
unfoldable pub change_window_size : Bool → List JsValue → Effect (ℤ × ℤ)
change_window_size false args = ignored
change_window_size true [] = panics
change_window_size true (v ∷ []) = panics
change_window_size true (v ∷ u ∷ vs) = elim v.int [
  | none ↦ panics
  | some rows ↦ elim u.int [ none ↦ panics | some cols ↦ does (rows, cols) ]
]

-- The callback of the terminal's input; `error` is that of the write.
pub data Input : Type 0 where
  writes : Bytes → Input
  write_fails : Bytes → Input

unfoldable pub on_input : List JsValue → Option Bytes → Effect Input
on_input [] error = ignored
on_input (v ∷ vs) none = does (writes v.string)
on_input (v ∷ vs) (some e) = does (write_fails e)

-- One result of Read on the session's output.
pub data Output : Type 0 where
  chunk : Bytes → Output
  read_error : Bytes → Output

pub data Shown : Type 0 where
  write : Bytes → Shown
  show_reconnect : Bytes → Shown
  close : Shown

-- A loop of forwardOutStreams, on what its reads return.
unfoldable pub forward_out : List Output → List Shown
forward_out [] = []
forward_out (chunk b ∷ os) = write b ∷ forward_out os
forward_out (read_error e ∷ os) = show_reconnect e ∷ close ∷ []
