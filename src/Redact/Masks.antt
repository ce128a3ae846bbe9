-- ===== src/Redact/Masks.antt =====
-- The mask table that `compile` of crates/archiv-redact/src/lib.rs builds.
use archiv_agent.Base.{
  ℕ, zero, suc, ◌+◌, ◌%◌, ◌^◌, ◌<◌, ◌≤◌, ◌≡◌, ◌∙◌, refl, sym, ap, arith, List, [], ◌∷◌, ◌++◌,
  append_assoc, append-nil,
}
use archiv_agent.Base.{
  Option, none, some, length, length-append, get_elem?, bytes_eq, bytes_eq_iff, Bool-cases, inl,
  inr,
}
use archiv_agent.Wire.{Bytes}
use archiv_agent.Envelope.{MaskId}
use archiv_agent.Redact.{position, one_on, intern_at, intern_mask, intern_masks}

-- Each mask stands in the table at its id.
unfoldable pub StandAt : List Bytes → List Bytes → List MaskId → Type 0
StandAt table [] [] = Unit
StandAt table [] (id ∷ ids) = ⊥
StandAt table (mask ∷ masks) [] = ⊥
StandAt table (mask ∷ masks) (id ∷ ids) = (get_elem? table id ≡ some mask) × StandAt table masks ids

one_on-some : (o : Option ℕ) (i : ℕ) → one_on o ≡ some i → (j : ℕ) × (o ≡ some j) × (i ≡ suc j)
one_on-some none i e = absurd cc
one_on-some (some j) i e = let h : j + 1 ≡ i = cc in (j, refl, omega (arith, h))

position-get_elem? :
    (mask : Bytes) (table : List Bytes) (i : ℕ)
    → position mask table ≡ some i
    → (get_elem? table i ≡ some mask) × (i < length table)
unfolding position
position-get_elem? mask [] i e = absurd cc
position-get_elem? mask (m ∷ table) i e = elim (Bool-cases (bytes_eq m mask)) [
  | inl same ↦
      let h : some 0 ≡ some i = rw same at e in
      let z : i ≡ 0 = cc in rw z (ap some ((bytes_eq_iff m mask).0 same), omega arith)
  | inr other ↦
      let h : one_on (position mask table) ≡ some i = rw other at e in
      let (j, f, g) = one_on-some (position mask table) i h in
      let (found, small) = position-get_elem? mask table j f in rw g (found, omega (arith, small))
]

get_elem?-append :
    (xs ys : List Bytes) (i : ℕ) (x : Bytes)
    → get_elem? xs i ≡ some x
    → get_elem? (xs ++ ys) i ≡ some x
get_elem?-append [] ys i x e = absurd cc
get_elem?-append (y ∷ xs) ys zero x e = e
get_elem?-append (y ∷ xs) ys (suc i) x e = get_elem?-append xs ys i x e

get_elem?_last : (xs : List Bytes) (x : Bytes) → get_elem? (xs ++ x ∷ []) (length xs) ≡ some x
get_elem?_last [] x = refl
get_elem?_last (y ∷ xs) x = get_elem?_last xs x

-- The table grew at its end, and has the mask at the id.
record IsInterned (mask : Bytes) (table : List Bytes) (r : MaskId × List Bytes) : Type 0 where
  pub extra : List Bytes
  pub grown : r.1 ≡ table ++ extra
  pub stands : get_elem? r.1 r.0 ≡ some mask
  pub small : length r.1 ≤ length table + 1

intern_at-IsInterned :
    (mask : Bytes) (table : List Bytes) (o : Option ℕ)
    → position mask table ≡ o
    → length table < 2 ^ 32
    → IsInterned mask table (intern_at mask table o)
intern_at-IsInterned mask table none e b =
    let id : length table % 2 ^ 32 ≡ length table = omega arith in
    record {
      extra = mask ∷ [];
      grown = refl;
      stands = rw id (get_elem?_last table mask);
      small = omega (arith, length-append table (mask ∷ []));
    }
intern_at-IsInterned mask table (some i) e b =
    let (found, below) = position-get_elem? mask table i e in
    let id : i % 2 ^ 32 ≡ i = omega (arith, below) in
    record { extra = []; grown = sym (append-nil table); stands = rw id found; small = omega arith }

intern_masks_go :
    (masks table : List Bytes)
    → length table + length masks ≤ 2 ^ 32
    → let (ids, final) = intern_masks masks table in
      ((extra : List Bytes) × (final ≡ table ++ extra)) × StandAt final masks ids
unfolding intern_masks intern_mask StandAt
intern_masks_go [] table b = (([], sym (append-nil table)), tt)
intern_masks_go (mask ∷ masks) table b =
    let h = intern_at-IsInterned mask table (position mask table) refl (omega arith) in
    let table1 = (intern_mask mask table).1 in
    let ((extra, grown), stand) = intern_masks_go masks table1 (omega (arith, h.small)) in
    (
      (h.extra ++ extra, grown ∙ ap (λ t. t ++ extra) h.grown ∙ append_assoc table h.extra extra),
      (rw grown (get_elem?-append table1 extra _ mask h.stands), stand),
    )

-- For at most 2 ^ 32 rules, the table that `compile` builds has the mask of each rule at the id that
-- the rule got, however many rules share a mask.
pub intern_masks-StandAt :
    (masks : List Bytes)
    → length masks ≤ 2 ^ 32
    → let (ids, final) = intern_masks masks [] in StandAt final masks ids
intern_masks-StandAt masks b = (intern_masks_go masks [] (omega arith)).1
