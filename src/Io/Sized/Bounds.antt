-- ===== src/Io/Sized/Bounds.antt =====
-- What the limit of io/fs/sized.go is worth, on a filesystem that keeps the laws below.
use datarhei_core.Prelude.{
  ℕ, ◌≤◌, ◌<◌, ◌≡◌, refl, ap, Bool, true, false, not, some, length, ltb, ◌⊎◌, inl, inr, arith,
  Option-cases, if-cases, if_true, if_false, ◌∙◌,
}
use datarhei_core.Prelude.Int.{
  ℤ, pos, pos_part, neg_part, ◌+ℤ◌, ◌-ℤ◌, ◌≤ℤ◌, ◌<ℤ◌, leb_ℤ, ltb_ℤ, int_laws,
}
use datarhei_core.Io.Path.{Bytes}
use datarhei_core.Io.Sized
use datarhei_core.Io.Sized.{Filesystem, SizedFilesystem, Write, Error, no_space, too_big}

-- A write adds at most the size of the new file.
pub record IsWrite {S : Type 0} (fs : Filesystem S) (Inv : S → Type 0) (w : Write S) : Type 0 where
  pub kept : (path c : Bytes) (now : ℕ) (s : S) → Inv s → Inv (w path c now s).0
  pub grows :
      (path c : Bytes) (now : ℕ) (s : S)
      → Inv s
      → fs.current_size (w path c now s).0 ≤ℤ fs.current_size s +ℤ pos (length c)

-- A purge counts what it frees, and frees enough or everything.
pub record IsPurge {S : Type 0} (fs : Filesystem S) (Inv : S → Type 0) (p : ℤ → S → S × ℕ)
    : Type 0 where
  pub kept : (size : ℤ) (s : S) → Inv s → Inv (p size s).0
  pub freed :
      (size : ℤ) (s : S)
      → Inv s
      → fs.current_size (p size s).0 +ℤ pos (p size s).1 ≡ fs.current_size s
  pub enough :
      (size : ℤ) (s : S)
      → Inv s
      → (size ≤ℤ pos (p size s).1) ⊎ (fs.current_size (p size s).0 ≡ pos 0)

-- The contract between the limit and the filesystem below it.
pub record IsFilesystem {S : Type 0} (fs : Filesystem S) (Inv : S → Type 0) : Type 0 where
  pub not_negative : (s : S) → Inv s → pos 0 ≤ℤ fs.current_size s
  pub reader : IsWrite fs Inv fs.write_file_reader
  pub file : IsWrite fs Inv fs.write_file
  pub safe : IsWrite fs Inv fs.write_file_safe
  pub purging : (p : ℤ → S → S × ℕ) → fs.purge ≡ some p → IsPurge fs Inv p

ltb-false : {m n : ℕ} → ltb m n ≡ false → n ≤ m
ltb-false e = ground arith

ltb-true : {m n : ℕ} → m < n → ltb m n ≡ true
ltb-true h = ground arith

leb_ℤ-false : (a b : ℤ) → b <ℤ a → leb_ℤ a b ≡ false
leb_ℤ-false a b h = ground arith

ltb_ℤ-false : (a b : ℤ) → b ≤ℤ a → ltb_ℤ a b ≡ false
ltb_ℤ-false a b h = ground arith

module _ {S : Type 0} (fs : Filesystem S) (Inv : S → Type 0) (laws : IsFilesystem fs Inv) where
  -- The invariant of the filesystem below, and the limit.
  pub record IsWithin (r : SizedFilesystem S) : Type 0 where
    pub good : Inv r.inner
    pub fits : fs.current_size r.inner ≤ℤ r.max_size

  purge_inner_freed :
      (size : ℤ) (s : S)
      → Inv s
      → Inv (Sized.purge_inner fs size s).0
        × (fs.current_size (Sized.purge_inner fs size s).0 +ℤ pos (Sized.purge_inner fs size s).1
            ≡ fs.current_size s)
  unfolding Sized.purge_inner
  purge_inner_freed size s i = elim (Option-cases fs.purge) [
    | inl e ↦ rw e (i, omega int_laws)
    | inr (p, e) ↦ rw e ((laws.purging p e).kept size s i, (laws.purging p e).freed size s i)
  ]

  accept-IsWithin :
      (w : Write S) (path c : Bytes) (now : ℕ) (r : SizedFilesystem S)
      → IsWrite fs Inv w
      → Inv r.inner
      → fs.current_size r.inner +ℤ pos (length c) ≤ℤ r.max_size
      → IsWithin (Sized.accept fs w path c now r).0
  unfolding Sized.accept
  accept-IsWithin w path c now r l i h = record {
    good = l.kept path c now r.inner i;
    fits = omega (int_laws, l.grows path c now r.inner i);
  }

  purged : ℤ → SizedFilesystem S → SizedFilesystem S
  unfolding Sized.purge
  purged size r = (Sized.purge fs size r).0

  purged-IsWithin :
      (n : ℕ) (r : SizedFilesystem S)
      → IsWithin r
      → IsWithin (purged (pos n) r)
        × (fs.current_size (purged (pos n) r).inner +ℤ pos (Sized.purge fs (pos n) r).1
            ≤ℤ r.max_size)
  unfolding purged Sized.purge
  purged-IsWithin n r h =
      let (i, e) = purge_inner_freed (pos n) r.inner h.good in
      let up = ap pos_part e in
      let down = ap neg_part e in
      (
        record { good = i; fits = omega (int_laws, h.fits, up, down) },
        omega (int_laws, h.fits, up, down),
      )

  Limited : SizedFilesystem S × (Error ⊎ (ℕ × Bool)) → Type 0
  Limited x = IsWithin x.0

  make_room-IsWithin :
      (w : Write S) (path c : Bytes) (now : ℕ) (r : SizedFilesystem S)
      → IsWrite fs Inv w
      → IsWithin r
      → IsWithin (Sized.make_room fs w path c now r).0
  unfolding Sized.make_room purged Limited
  make_room-IsWithin w path c now r l h =
      let (k, b) = purged-IsWithin (length c) r h in
      let n = length c in
      let room = purged (pos n) r in
      if-cases Limited (not r.purges) _ _ (λ e. h)
        (λ e.
          if-cases Limited (ltb (Sized.purge fs (pos n) r).1 n) _ _ (λ t. k)
            (λ t. accept-IsWithin w path c now room l k.good (omega (int_laws, ltb-false t, b))))

  write_limited-IsWithin :
      (w : Write S) (path c : Bytes) (now : ℕ) (r : SizedFilesystem S)
      → IsWrite fs Inv w
      → IsWithin r
      → IsWithin (Sized.write_limited fs w path c now r).0
  unfolding Sized.write_limited Limited
  write_limited-IsWithin w path c now r l h =
      let n = length c in
      if-cases Limited (ltb_ℤ r.max_size (pos n)) _ _ (λ e. h)
        (λ e.
          if-cases Limited (ltb_ℤ r.max_size (fs.current_size r.inner +ℤ pos n)) _ _
            (λ t. make_room-IsWithin w path c now r l h)
            (λ t. accept-IsWithin w path c now r l h.good (ltb-false t)))

  -- On a filesystem that keeps the laws `IsFilesystem`, with a positive limit and a size within
  -- it, a write by a reader and a safe write leave a size within the limit, whether the file is
  -- accepted or refused.
  pub write-IsWithin :
      (path c : Bytes) (now : ℕ) (r : SizedFilesystem S)
      → pos 0 <ℤ r.max_size
      → IsWithin r
      → IsWithin (Sized.write_file_reader fs path c now r).0
        × IsWithin (Sized.write_file_safe fs path c now r).0
  unfolding Sized.write_file_reader Sized.write_file_safe Limited
  write-IsWithin path c now r m h = (
    if-cases Limited (leb_ℤ r.max_size (pos 0)) _ _ (λ e. absurd (ground arith))
        (λ e. write_limited-IsWithin fs.write_file_reader path c now r laws.reader h),
    if-cases Limited (leb_ℤ r.max_size (pos 0)) _ _ (λ e. absurd (ground arith))
        (λ e. write_limited-IsWithin fs.write_file_safe path c now r laws.safe h),
  )

  purge_inner-some :
      (p : ℤ → S → S × ℕ) (size : ℤ) (s : S)
      → fs.purge ≡ some p
      → Sized.purge_inner fs size s ≡ p size s
  unfolding Sized.purge_inner
  purge_inner-some p size s e = rw e refl

  Resized : ℤ → SizedFilesystem S → Type 0
  Resized size x = IsWithin x × (x.max_size ≡ size)

  resized_down :
      (p : ℤ → S → S × ℕ) (size : ℤ) (r : SizedFilesystem S)
      → fs.purge ≡ some p
      → pos 0 ≤ℤ size
      → Inv r.inner
      → IsWithin (record (purged (fs.current_size r.inner -ℤ size) r) { max_size = size })
  unfolding purged Sized.purge
  resized_down p size r e z i =
      let l = laws.purging p e in
      let over = fs.current_size r.inner -ℤ size in
      let freed = l.freed over r.inner i in
      let up = ap pos_part freed in
      let down = ap neg_part freed in
      rw (purge_inner-some p over r.inner e) (record {
        good = l.kept over r.inner i;
        fits = elim (l.enough over r.inner i) [
          | inl q ↦ omega (int_laws, up, down, q)
          | inr q ↦ rw q z
        ];
      })

  -- On a filesystem that keeps the laws `IsFilesystem` and can purge, `Resize` to a limit that is
  -- not negative sets the limit and leaves a size within it.
  pub resize-IsWithin :
      (p : ℤ → S → S × ℕ) (size : ℤ) (r : SizedFilesystem S)
      → fs.purge ≡ some p
      → pos 0 ≤ℤ size
      → Inv r.inner
      → IsWithin (Sized.resize fs size r) × ((Sized.resize fs size r).max_size ≡ size)
  unfolding Sized.resize Resized purged
  resize-IsWithin p size r e z i =
      if-cases (Resized size) (leb_ℤ (fs.current_size r.inner) size) _ _
        (λ t. (record { good = i; fits = ground arith }, refl))
        (λ t. (resized_down p size r e z i, refl))

  emptied :
      (p : ℤ → S → S × ℕ) (n : ℕ) (r : SizedFilesystem S)
      → fs.purge ≡ some p
      → Inv r.inner
      → fs.current_size r.inner <ℤ pos n
      → (ltb (Sized.purge fs (pos n) r).1 n ≡ true)
        × (fs.current_size (purged (pos n) r).inner ≡ pos 0)
  unfolding purged Sized.purge
  emptied p n r e i a =
      let l = laws.purging p e in
      let freed = l.freed (pos n) r.inner i in
      let up = ap pos_part freed in
      let down = ap neg_part freed in
      let least = laws.not_negative (p (pos n) r.inner).0 (l.kept (pos n) r.inner i) in
      rw (purge_inner-some p (pos n) r.inner e) (
        ltb-true (omega (int_laws, up, down, least)),
        elim (l.enough (pos n) r.inner i) [
          | inl q ↦ absurd (omega (int_laws, up, down, least, q))
          | inr q ↦ q
        ],
      )

  make_room-refuses :
      (p : ℤ → S → S × ℕ) (w : Write S) (path c : Bytes) (now : ℕ) (r : SizedFilesystem S)
      → fs.purge ≡ some p
      → r.purges ≡ true
      → Inv r.inner
      → fs.current_size r.inner <ℤ pos (length c)
      → Sized.make_room fs w path c now r ≡ (purged (pos (length c)) r, inl no_space)
  unfolding Sized.make_room purged
  make_room-refuses p w path c now r e u i a =
      if_false (ap not u) _ _ ∙ if_true (emptied p (length c) r e i a).0 _ _

  -- On a filesystem that keeps the laws `IsFilesystem` and can purge, with purging enabled: a file
  -- that is larger than all that is stored, is within the limit, and does not fit beside what is
  -- stored, is refused for want of space by a write by a reader, and everything that was stored is
  -- gone.
  pub write-refuses_after_purge :
      (p : ℤ → S → S × ℕ) (path c : Bytes) (now : ℕ) (r : SizedFilesystem S)
      → fs.purge ≡ some p
      → r.purges ≡ true
      → Inv r.inner
      → fs.current_size r.inner <ℤ pos (length c)
      → pos (length c) ≤ℤ r.max_size
      → r.max_size <ℤ fs.current_size r.inner +ℤ pos (length c)
      → ((Sized.write_file_reader fs path c now r).1 ≡ inl no_space)
        × (fs.current_size (Sized.write_file_reader fs path c now r).0.inner ≡ pos 0)
  unfolding Sized.write_file_reader Sized.write_limited
  write-refuses_after_purge p path c now r e u i a b d =
      let least = laws.not_negative r.inner i in
      let refused =
        if_false (leb_ℤ-false r.max_size (pos 0) (omega (int_laws, least))) _ _
        ∙ if_false (ltb_ℤ-false r.max_size (pos (length c)) b) _ _
        ∙ if_true (ltb-true d) _ _
        ∙ make_room-refuses p fs.write_file_reader path c now r e u i a in
      (
        ap (λ x. x.1) refused,
        ap (λ x. fs.current_size x.0.inner) refused ∙ (emptied p (length c) r e i a).1,
      )
