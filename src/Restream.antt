-- ===== src/Restream.antt =====
-- restream/app/process.go: the configuration of a process, as far as restream/restream.go reads it,
-- and the operations on texts that the manager uses. A text is a list of bytes.
pub mod Output
pub mod Returns
pub mod Prefix
pub mod Inside
pub mod Validate
pub mod Resolve
pub mod Tasks
pub mod Cleanups
pub mod Manager
pub mod Changes
pub mod Lifecycle
pub mod Queries
pub mod Count
pub mod Running
pub mod Created
pub mod Updated
pub mod Reloaded
pub mod Server
pub mod Requests
pub mod Reassigned
pub mod Exclusive
pub mod Ports
pub mod Holders
pub mod Leases
pub mod Configured
pub mod References
pub mod Resolution
pub mod Faults
pub mod Metadata
mod Tests
use datarhei_core.Prelude.{
  ℕ, zero, suc, Bool, true, false, ◌||◌, ◌&&◌, List, [], ◌∷◌, ◌++◌, ◌==◌, if◌then◌else◌, leb,
  Option, none, some,
}
use datarhei_core.Io.Path.{Bytes}

-- `ConfigIOCleanup`
pub record Cleanup : Type 0 where
  pub pattern : Bytes
  pub max_files : ℕ
  pub max_file_age : ℕ
  pub purge_on_delete : Bool

-- `ConfigIO`
pub record ConfigIo : Type 0 where
  pub id : Bytes
  pub address : Bytes
  pub options : List Bytes
  pub cleanup : List Cleanup

-- `Config`, less the version of FFmpeg and the limit of the CPU.
pub record Config : Type 0 where
  pub id : Bytes
  pub reference : Bytes
  pub input : List ConfigIo
  pub output : List ConfigIo
  pub options : List Bytes
  pub reconnect : Bool
  pub reconnect_delay : ℕ
  pub autostart : Bool
  pub stale_timeout : ℕ
  pub limit_memory : ℕ
  pub limit_wait_for : ℕ

unfoldable pub input_command : List ConfigIo → List Bytes
input_command [] = []
input_command (io ∷ ios) = io.options ++ (b'-' ∷ b'i' ∷ []) ∷ io.address ∷ input_command ios

unfoldable pub output_command : List ConfigIo → List Bytes
output_command [] = []
output_command (io ∷ ios) = io.options ++ io.address ∷ output_command ios

-- `CreateCommand`
unfoldable pub create_command : Config → List Bytes
unfolding input_command output_command
create_command c = c.options ++ input_command c.input ++ output_command c.output

-- `strings.HasPrefix`
unfoldable pub has_prefix : Bytes → Bytes → Bool
has_prefix s [] = true
has_prefix [] (p ∷ ps) = false
has_prefix (x ∷ xs) (p ∷ ps) = (x == p) && has_prefix xs ps

-- `s[n:]`
unfoldable pub drop : ℕ → Bytes → Bytes
drop zero s = s
drop (suc n) [] = []
drop (suc n) (x ∷ xs) = drop n xs

-- `strings.Contains`, of one byte.
unfoldable pub contains : ℕ → Bytes → Bool
contains c [] = false
contains c (x ∷ xs) = (x == c) || contains c xs

unfoldable pub is_space : ℕ → Bool
is_space c = (c == 32) || (leb 9 c && leb c 13)

unfoldable pub trim_left : Bytes → Bytes
unfolding is_space
trim_left [] = []
trim_left (x ∷ xs) = let rest = trim_left xs in if is_space x then rest else x ∷ xs

unfoldable pub trim_right : Bytes → Bytes
unfolding is_space
trim_right [] = []
trim_right (x ∷ xs) = trim_cons x (trim_right xs)
  where
    trim_cons : ℕ → Bytes → Bytes
    trim_cons x [] = if is_space x then [] else x ∷ []
    trim_cons x (y ∷ ys) = x ∷ y ∷ ys

-- `strings.TrimSpace`, of texts in ASCII.
unfoldable pub trim_space : Bytes → Bytes
unfolding trim_left trim_right
trim_space s = trim_right (trim_left s)
