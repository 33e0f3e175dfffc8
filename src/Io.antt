-- ===== src/Io.antt =====
-- `bloomd_write_all` and `bloomd_read_all` of src/util.c. A loop has fuel for every byte and for
-- every interruption that the platform still allows.
pub mod Writes
pub mod Reads
use kbloomd.Common.{
  ℕ, zero, suc, ◌+◌, ◌-◌, List, [], ◌∷◌, ◌++◌, Bytes, Result, ok, err, length, drop, ◌==◌,
  if◌then◌else◌, eintr, eagain, etimedout, epipe, econnreset, hang,
}
use kbloomd.Platform.{Platform}

module _ (P : Platform) where
  open P use {World, interrupts, read, write}

  -- The branches after one `write`; `retry` and `rest` are the loop gone on with.
  unfoldable pub after_write : Result ℕ → World → ℕ × World → (ℕ → ℕ × World) → ℕ × World
  after_write (ok n) w retry rest = if n == 0 then (epipe, w) else rest n
  after_write (err e) w retry rest =
      if e == eintr then retry else if e == eagain then (etimedout, w) else (e, w)

  unfoldable pub write_loop : ℕ → ℕ → Bytes → World → ℕ × World
  unfolding after_write
  write_loop zero fd buf w = (hang, w)
  write_loop (suc fuel) fd [] w = (0, w)
  write_loop (suc fuel) fd (b ∷ bs) w =
      let (r, w') = write w fd (b ∷ bs) in
      let retry = write_loop fuel fd (b ∷ bs) w' in
      after_write r w' retry (λ n. write_loop fuel fd (drop n (b ∷ bs)) w')

  unfoldable pub write_all : ℕ → Bytes → World → ℕ × World
  unfolding write_loop
  write_all fd buf w = write_loop (suc (length buf + interrupts w)) fd buf w

  unfoldable pub read_loop : ℕ → ℕ → ℕ → Bytes → World → Result Bytes × World
  read_loop zero fd len got w = (err hang, w)
  read_loop (suc fuel) fd zero got w = (ok got, w)
  read_loop (suc fuel) fd (suc len) got w =
      let (r, w') = read w fd (suc len) in
      let retry = read_loop fuel fd (suc len) got w' in
      let next = λ (bs : Bytes). read_loop fuel fd (suc len - length bs) (got ++ bs) w' in
      elim r [
        | ok bs ↦ if length bs == 0 then (err econnreset, w') else next bs
        | err e ↦
            if e == eintr then retry else if e == eagain then (err etimedout, w') else (err e, w')
      ]

  unfoldable pub read_all : ℕ → ℕ → World → Result Bytes × World
  unfolding read_loop
  read_all fd len w = read_loop (suc (len + interrupts w)) fd len [] w
