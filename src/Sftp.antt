-- ===== src/Sftp.antt =====
-- web/browser.go: the file browser. Every call of the page runs operations of the SFTP server, whose
-- behaviour is a parameter here, and answers through the page's callback.
pub mod Mode
pub mod Names
pub mod Trees
pub mod Files
pub mod Transfers
pub mod Page
mod Examples
use ssheasy.Base.{ℕ, Bool, true, false, ◌||◌, not, List, [], ◌∷◌, Option, if◌then◌else◌, ltb}
use ssheasy.Base.Text.{Bytes}

-- os.FileInfo, as far as the browser reads it.
pub record FileInfo : Type 0 where
  pub name : Bytes
  pub is_dir : Bool
  pub size : ℕ
  pub mode : ℕ
  pub mod_time : Bytes

-- The methods of sftp.Client and of its open files that the browser calls, on the server's state. A
-- method that changes the state tells whether it succeeded.
pub record Remote {ℓ} (S : Type ℓ) : Type ℓ where
  pub lstat : Bytes → S → Option FileInfo
  pub read_dir : Bytes → S → Option (List FileInfo)
  pub real_path : Bytes → S → Option Bytes
  -- OpenFile with O_RDWR and O_TRUNC, and Create
  pub open_truncated : Bytes → S → Bool × S
  pub create : Bytes → S → Bool × S
  pub write : Bytes → Bytes → S → Bool × S
  -- Open, ReadAll of the opened file, and Close of the file's handle
  pub opens : Bytes → S → Bool × S
  pub read_all : Bytes → S → Option Bytes
  pub close : Bytes → S → S
  pub rename : Bytes → Bytes → S → Bool × S
  pub remove : Bytes → S → Bool × S
  pub remove_directory : Bytes → S → Bool × S
  pub mkdir : Bytes → S → Bool × S
  pub mkdir_all : Bytes → S → Bool × S
  pub chmod : Bytes → ℕ → S → Bool × S
  -- runCmd: a command line in a shell of the server
  pub run_cmd : Bytes → S → Bool × S

-- A value in an object of the page, and the object.
pub data Value : Type 0 where
  string : Bytes → Value
  number : ℕ → Value

abbrev pub Object : Type 0
Object = List (Bytes × Value)

-- What the page sees of a call.
pub data Reply : Type 0 where
  -- the call returned before it did anything, or the goroutine panicked
  no_reply panics : Reply
  -- apiResponse without an error, and with one
  success failure : Reply
  -- cb.Invoke(nil, status)
  status : ℕ → Reply
  -- the bytes that the page gets
  content : Bytes → Reply
  -- the path and the name of an uploaded file
  stored : Bytes → Bytes → Reply
  listing : List Object → Reply

-- apiResponse
abbrev pub api_response : Bool → Reply
api_response true = success
api_response false = failure

-- How a call arrives: whether sftpClient is set, and how many arguments the page gave.
pub record Call : Type 0 where
  pub connected : Bool
  pub count : ℕ

-- The two tests at the head of every handler.
abbrev pub guarded {ℓ} : {S : Type ℓ} → Call → ℕ → (S → Reply × S) → S → Reply × S
guarded c need body s = if not c.connected || ltb c.count need then (no_reply, s) else body s

-- How a chain of operations ended.
pub data Outcome : Type 0 where
  done error out_of_fuel : Outcome

abbrev pub replied {ℓ} : {S : Type ℓ} → Outcome × S → Reply × S
replied (done, s) = (success, s)
replied (error, s) = (failure, s)
replied (out_of_fuel, s) = (no_reply, s)

abbrev pub outcome {ℓ} : {S : Type ℓ} → Bool × S → Outcome × S
outcome (true, s) = (done, s)
outcome (false, s) = (error, s)

-- A loop that returns at the first error.
pub and_then {ℓ} : {S : Type ℓ} → Outcome × S → (S → Outcome × S) → Outcome × S
and_then (done, s) k = k s
and_then (error, s) k = (error, s)
and_then (out_of_fuel, s) k = (out_of_fuel, s)

unfoldable pub each {ℓ} : {S : Type ℓ} → (Bytes → S → Outcome × S) → List Bytes → S → Outcome × S
unfolding and_then
each step [] s = (done, s)
each step (f ∷ fs) s = and_then (step f s) (λ s'. each step fs s')
