-- ===== src/Spool/Recovery/Files.antt =====
-- The directory and the lists of pushes of src/spool.rs, as the steps of the spool change them.
use archiv_agent.Base.{
  ℕ, ◌+◌, ◌≤◌, ◌<◌, ◌≡◌, ◌≢◌, refl, arith, List, [], ◌∷◌, ◌++◌, All, Bool, true, false,
  if◌then◌else◌, if_case, ◌==◌, ==_iff,
}
use archiv_agent.Wire.{Bytes}
use archiv_agent.Spool.Recovery.{File, sweep}
use archiv_agent.Spool.Recovery.Entries.{is_there}
use archiv_agent.Spool.Recovery.Crashes.{same_flag, unlink, forget}

-- How often a number stands in a list.
abbrev pub is_number : ℕ → ℕ → ℕ
is_number q s = if s == q then 1 else 0

unfoldable pub copies : ℕ → List (ℕ × Bytes) → ℕ
copies q [] = 0
copies q (x ∷ xs) = is_number q x.0 + copies q xs

pub copies-split :
    (q : ℕ) (before after : List (ℕ × Bytes)) (x : ℕ × Bytes)
    → copies q (before ++ x ∷ after) ≡ is_number q x.0 + copies q (before ++ after)
unfolding copies
copies-split q [] after x = refl
copies-split q (y ∷ before) after x = omega (arith, copies-split q before after x)

pub copies-below : (n : ℕ) (xs : List (ℕ × Bytes)) → All (λ x. x.0 < n) xs → copies n xs ≡ 0
unfolding copies
copies-below n [] h = refl
copies-below n (x ∷ xs) (h, hs) = ground (arith, h, copies-below n xs hs)

pub copies-forget : (q seq : ℕ) (xs : List (ℕ × Bytes)) → copies q (forget seq xs) ≤ copies q xs
unfolding copies forget
copies-forget q seq [] = omega arith
copies-forget q seq ((s, p) ∷ xs) =
    if_case (λ t. copies q t ≤ is_number q s + copies q xs) (s == seq) {x = forget seq xs}
      {y = (s, p) ∷ forget seq xs} (λ _. omega (arith, copies-forget q seq xs))
      (λ _. omega (arith, copies-forget q seq xs))

module _ {A : Type 0} where
  pub All-map : {P Q : A → Type 0} (xs : List A) → All P xs → ((x : A) → P x → Q x) → All Q xs
  All-map [] h f = tt
  All-map (x ∷ xs) (h, hs) f = (f x h, All-map xs hs f)

  pub All-split :
      (P : A → Type 0) (before after : List A) (x : A)
      → All P (before ++ x ∷ after)
      → P x × All P (before ++ after)
  All-split P [] after x (h, hs) = (h, hs)
  All-split P (y ∷ before) after x (h, hs) =
      let (k, ks) = All-split P before after x hs in (k, (h, ks))

-- A property of all entries of other numbers.
pub All-others :
    {P Q : ℕ × Bytes → Type 0} (seq : ℕ) (xs : List (ℕ × Bytes))
    → copies seq xs ≡ 0
    → All P xs
    → ((x : ℕ × Bytes) → x.0 ≢ seq → P x → Q x)
    → All Q xs
unfolding copies
All-others seq [] c h f = tt
All-others seq (x ∷ xs) c (h, hs) f = (
  f x (λ e. let g : (x.0 == seq) ≡ true = (==_iff x.0 seq).1 e in ground (arith, c, g)) h,
  All-others seq xs (omega (arith, c)) hs f,
)

pub All-forget :
    {P Q : ℕ × Bytes → Type 0} (seq : ℕ) (xs : List (ℕ × Bytes))
    → All P xs
    → ((x : ℕ × Bytes) → x.0 ≢ seq → P x → Q x)
    → All Q (forget seq xs)
unfolding forget
All-forget seq [] h f = tt
All-forget {P} {Q} seq ((s, p) ∷ xs) (h, hs) f =
    if_case (All Q) (s == seq) (λ _. All-forget seq xs hs f)
      (λ e. (f (s, p) (λ z. ground (arith, e, z)) h, All-forget seq xs hs f))

pub All-unlink :
    (P : File → Type 0) (published : Bool) (seq : ℕ) (fs : List File)
    → All P fs
    → All P (unlink published seq fs)
unfolding unlink
All-unlink P published seq [] h = tt
All-unlink P published seq (f ∷ fs) (h, hs) =
    let rest = All-unlink P published seq fs hs in
    if_case (All P) (same_flag published f.published)
      (λ _. if_case (All P) (f.seq == seq) (λ _. rest) (λ _. (h, rest))) (λ _. (h, rest))

pub All-sweep : (P : File → Type 0) (fs : List File) → All P fs → All P (sweep fs)
unfolding sweep
All-sweep P [] h = tt
All-sweep P (f ∷ fs) (h, hs) =
    if_case (All P) f.published (λ _. (h, All-sweep P fs hs)) (λ _. All-sweep P fs hs)

-- The published files of other numbers stay where they are.
pub is_there-unlink_tmp :
    (q seq : ℕ) (fs : List File) → is_there q (unlink false seq fs) ≡ is_there q fs
unfolding is_there unlink
is_there-unlink_tmp q seq [] = refl
is_there-unlink_tmp q seq (f ∷ fs) = ground (arith, is_there-unlink_tmp q seq fs)

pub is_there-unlink :
    (q seq : ℕ) (fs : List File) → q ≢ seq → is_there q (unlink true seq fs) ≡ is_there q fs
unfolding is_there unlink
is_there-unlink q seq [] h = refl
is_there-unlink q seq (f ∷ fs) h = ground (arith, h, is_there-unlink q seq fs h)

pub is_there-sweep : (q : ℕ) (fs : List File) → is_there q (sweep fs) ≡ is_there q fs
unfolding is_there sweep
is_there-sweep q [] = refl
is_there-sweep q (f ∷ fs) = ground (arith, is_there-sweep q fs)

pub is_there-split :
    (q : ℕ) (before after : List File) (f : File)
    → is_there q (before ++ f ∷ after) ≡ true
    → is_there q (f ∷ before ++ after) ≡ true
unfolding is_there
is_there-split q [] after f h = h
is_there-split q (g ∷ before) after f h = ground (arith, h, is_there-split q before after f)
