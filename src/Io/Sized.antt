-- ===== src/Io/Sized.antt =====
-- io/fs/sized.go: a filesystem with a maximal size, on top of another one.
pub mod Bounds
pub mod Instance
mod Tests
use datarhei_core.Prelude.{
  ℕ, ◌+◌, ◌≡◌, Bool, true, false, not, Option, none, some, length, ltb, if◌then◌else◌, ◌⊎◌, inl,
  inr,
}
use datarhei_core.Prelude.Int.{ℤ, pos, ◌+ℤ◌, ◌-ℤ◌, leb_ℤ, ltb_ℤ}
use datarhei_core.Io.Path.{Bytes}

-- The path, what the reader delivers and the time; the size and whether the file is new.
abbrev pub Write : Type 0 → Type 0
Write S = Bytes → Bytes → ℕ → S → S × ℕ × Bool

-- `Filesystem`, as far as the limit depends on it, for a state `S`. Its `purge` is `none` if it is
-- no `PurgeFilesystem`.
pub record Filesystem (S : Type 0) : Type 0 where
  pub current_size : S → ℤ
  pub write_file_reader : Write S
  pub write_file : Write S
  pub write_file_safe : Write S
  pub purge : Option (ℤ → S → S × ℕ)

-- `sizedFilesystem`
pub record SizedFilesystem (S : Type 0) : Type 0 where
  pub inner : S
  pub max_size : ℤ
  pub purges : Bool

pub data Error : Type 0 where
  too_big no_space : Error

module _ {S : Type 0} (fs : Filesystem S) where
  -- `NewSizedFilesystem`
  unfoldable pub new_sized_filesystem : S → ℤ → Bool → SizedFilesystem S
  new_sized_filesystem s max purges = record { inner = s; max_size = max; purges = purges }

  -- `Purge`
  unfoldable pub purge_inner : ℤ → S → S × ℕ
  purge_inner size s = elim fs.purge [ none ↦ (s, 0) | some p ↦ p size s ]

  unfoldable pub purge : ℤ → SizedFilesystem S → SizedFilesystem S × ℕ
  unfolding purge_inner
  purge size r = (record r { inner = (purge_inner size r.inner).0 }, (purge_inner size r.inner).1)

  -- `Resize`
  unfoldable pub resize : ℤ → SizedFilesystem S → SizedFilesystem S
  unfolding purge
  resize size r =
      let current = fs.current_size r.inner in
      if leb_ℤ current size
      then record r { max_size = size }
      else record (purge (current -ℤ size) r).0 { max_size = size }

  unfoldable pub accept :
      Write S → Bytes → Bytes → ℕ → SizedFilesystem S → SizedFilesystem S × (Error ⊎ (ℕ × Bool))
  accept w path c now r =
      let written = w path c now r.inner in
      (record r { inner = written.0 }, inr (written.1, written.2))

  -- Room for the file is made, or it is refused.
  unfoldable pub make_room :
      Write S → Bytes → Bytes → ℕ → SizedFilesystem S → SizedFilesystem S × (Error ⊎ (ℕ × Bool))
  unfolding accept purge
  make_room w path c now r =
      let purged = purge (pos (length c)) r in
      if not r.purges
      then (r, inl no_space)
      else if ltb purged.1 (length c)
      then (purged.0, inl no_space)
      else accept w path c now purged.0

  unfoldable pub write_limited :
      Write S → Bytes → Bytes → ℕ → SizedFilesystem S → SizedFilesystem S × (Error ⊎ (ℕ × Bool))
  unfolding make_room accept
  write_limited w path c now r =
      if ltb_ℤ r.max_size (pos (length c))
      then (r, inl too_big)
      else if ltb_ℤ r.max_size (fs.current_size r.inner +ℤ pos (length c))
      then make_room w path c now r
      else accept w path c now r

  -- `WriteFileReader`, and `WriteFile` that calls it
  unfoldable pub write_file_reader :
      Bytes → Bytes → ℕ → SizedFilesystem S → SizedFilesystem S × (Error ⊎ (ℕ × Bool))
  unfolding write_limited accept
  write_file_reader path c now r =
      if leb_ℤ r.max_size (pos 0)
      then accept fs.write_file_reader path c now r
      else write_limited fs.write_file_reader path c now r

  -- `WriteFileSafe`
  unfoldable pub write_file_safe :
      Bytes → Bytes → ℕ → SizedFilesystem S → SizedFilesystem S × (Error ⊎ (ℕ × Bool))
  unfolding write_limited accept
  write_file_safe path c now r =
      if leb_ℤ r.max_size (pos 0)
      then accept fs.write_file path c now r
      else write_limited fs.write_file_safe path c now r
