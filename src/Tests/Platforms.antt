-- ===== src/Tests/Platforms.antt =====
-- The small platform behaves as documented.
use kbloomd.Common.{
  ℕ, zero, suc, ◌≤◌, ◌≡◌, refl, ap, arith, List, [], ◌∷◌, ◌++◌, Bytes, ok, err, length, take,
  take_all, length-take, eintr, ◌⊎◌, inl, inr, sym, ◌∙◌, drop, take-append-drop,
}
use kbloomd.Platform.Laws.{IoLaws, StreamLaws, FileLaws, ReadLaws, MapLaws}
use kbloomd.Frame.Send.{concat, VectorLaws}
use kbloomd.Tests.{
  Plan, full, part, no_space, Machine, write_planned, toy, sent, unread, content, inserted,
}

planned_count :
    (plans : List Plan) (m : Machine) (bs : Bytes) (n : ℕ)
    → (write_planned plans m bs).0 ≡ ok n
    → n ≤ length bs
planned_count [] m bs n e = ground arith
planned_count (full ∷ more) m bs n e = ground arith
planned_count (part ∷ more) m bs n e = ground (arith, length-take 1 bs)
planned_count (no_space ∷ more) m bs n e = ground arith

planned_error :
    (plans : List Plan) (m : Machine) (bs : Bytes) (e : ℕ)
    → (write_planned plans m bs).0 ≡ err e
    → e ≡ 28
planned_error [] m bs e h = ground arith
planned_error (full ∷ more) m bs e h = ground arith
planned_error (part ∷ more) m bs e h = ground arith
planned_error (no_space ∷ more) m bs e h = ground arith

take_counted : (n : ℕ) (bs : Bytes) → length (take 1 bs) ≡ n → take 1 bs ≡ take n bs
take_counted zero [] e = refl
take_counted zero (b ∷ bs) e = absurd (omega arith)
take_counted (suc n) [] e = absurd (omega arith)
take_counted (suc n) (b ∷ bs) e = ap (λ k. take k (b ∷ bs)) e

planned_ok :
    (plans : List Plan) (m : Machine) (bs : Bytes) (n : ℕ)
    → (write_planned plans m bs).0 ≡ ok n
    → (write_planned plans m bs).1.disk ≡ m.disk ++ take n bs
planned_ok [] m bs n e = ground (arith, take_all n bs)
planned_ok (full ∷ more) m bs n e = ground (arith, take_all n bs)
planned_ok (part ∷ more) m bs n e = ap (λ t. m.disk ++ t) (take_counted n bs (cc e))
planned_ok (no_space ∷ more) m bs n e = ground arith

planned_err :
    (plans : List Plan) (m : Machine) (bs : Bytes) (e : ℕ)
    → (write_planned plans m bs).0 ≡ err e
    → (write_planned plans m bs).1.disk ≡ m.disk
planned_err [] m bs e h = ground arith
planned_err (full ∷ more) m bs e h = ground arith
planned_err (part ∷ more) m bs e h = ground arith
planned_err (no_space ∷ more) m bs e h = ground arith

pub toy-IoLaws : IoLaws toy
toy-IoLaws = record {
  write_count = λ m fd bs n e. planned_count m.plans m bs n e;
  write_error = λ m fd bs e h. omega (arith, planned_error m.plans m bs e h);
  write_known = λ m fd bs e h. omega (arith, planned_error m.plans m bs e h);
  write_interrupts = λ m fd bs. omega arith;
  write_eintr = λ m fd bs h. absurd (omega (arith, planned_error m.plans m bs eintr h));
  clock_interrupts = λ m. omega arith;
}

pub toy-StreamLaws : StreamLaws toy sent
toy-StreamLaws = record {
  write_ok = λ m fd bs n e. planned_ok m.plans m bs n e;
  write_err = λ m fd bs e h. planned_err m.plans m bs e h;
}

pub toy-FileLaws : FileLaws toy sent
toy-FileLaws = record {
  fsync_keeps = λ m fd. refl;
  lseek_keeps = λ m fd. refl;
  lseek_size = λ m fd n e. ground arith;
  lseek_error = λ m fd e h. ground arith;
  update_keeps = λ m map fd d. refl;
  clock_keeps = λ m fd. refl;
}

taken_none : (n : ℕ) (input bs : Bytes) → take n input ≡ bs → length bs ≡ 0 → (input ≡ []) ⊎ (n ≡ 0)
taken_none zero input bs e z = inr refl
taken_none (suc n) [] bs e z = inl refl
taken_none (suc n) (x ∷ input) bs e z = absurd (omega (arith, ap length e, z))

ok_taken : {xs ys : Bytes} → ok xs ≡ ok ys → xs ≡ ys
ok_taken {xs} {ys} e = ground (arith, e)

pub toy-ReadLaws : ReadLaws toy unread
toy-ReadLaws = record {
  read_ok =
      λ m fd n bs e. sym (take-append-drop n m.input) ∙ ap (λ t. t ++ drop n m.input) (ok_taken e);
  read_count = λ m fd n bs e. omega (arith, length-take n m.input, ap length (ok_taken e));
  read_end = λ m fd n bs e z. taken_none n m.input bs (ok_taken e) z;
  read_err = λ m fd n e h. absurd (ground arith);
  read_known = λ m fd n e h. absurd (ground arith);
  read_interrupts = λ m fd n. omega arith;
  read_eintr = λ m fd n h. absurd (ground arith);
  left = λ m fd. omega arith;
}

pub toy-MapLaws : MapLaws toy inserted unread content
toy-MapLaws = record {
  create_empty = λ m attr fd e. refl;
  create_content = λ m attr path. refl;
  update_inserted = λ m fd d e. refl;
  update_unread = λ m map fd d. refl;
  open_content = λ m path fd e. refl;
  open_inserted = λ m path fd. refl;
  read_inserted = λ m fd n map. refl;
  close_inserted = λ m fd map. refl;
  truncate_inserted = λ m path n map. refl;
  pin_inserted = λ m fd path map. refl;
}

counted : {a b : ℕ} → ok a ≡ ok b → a ≡ b
counted {a} {b} e = ground (arith, e)

pub toy-VectorLaws : VectorLaws toy sent
toy-VectorLaws = record {
  writev_count = λ m fd parts n e. omega (arith, counted e);
  writev_ok = λ m fd parts n e.
      ap (λ t. m.disk ++ t) (sym (take_all n (concat parts) (omega (arith, counted e))));
  writev_err = λ m fd parts e h. absurd (ground arith);
  writev_interrupts = λ m fd parts. omega arith;
  writev_eintr = λ m fd parts h. absurd (ground arith);
}
