-- ===== src/Spool/Recovery/Outages.antt =====
-- What a crash or a loss of power leaves of the directory of src/spool.rs.
use archiv_agent.Base.{
  ℕ, ◌≡◌, ◌≢◌, refl, sym, ◌∙◌, arith, List, All, true, false, ◌&&◌, ◌==◌, ==_iff, Bool-cases, inl,
  inr,
}
use archiv_agent.Wire.{Bytes}
use archiv_agent.Spool.Recovery.{File}
use archiv_agent.Spool.Recovery.Entries.{is_there}
use archiv_agent.Spool.Recovery.Crashes.{Survives, none_left, kept, torn, lost}
use archiv_agent.Spool.Recovery.Durable.{IsKept}

apart : false ≢ true
apart z = cc

-- What holds of the names holds of what is left.
pub All-Survives :
    (P : ℕ → Type 0) {fs gs : List File}
    → Survives fs gs
    → All (λ f. P f.seq) fs
    → All (λ f. P f.seq) gs
All-Survives P none_left h = tt
All-Survives P (kept f s) (h, hs) = (h, All-Survives P s hs)
All-Survives P (torn f content d s) (h, hs) = (h, All-Survives P s hs)
All-Survives P (lost f d s) (h, hs) = All-Survives P s hs

pub IsKept-Survives :
    (seq : ℕ) (payload : Bytes) {fs gs : List File}
    → Survives fs gs
    → All (IsKept true seq payload) fs
    → All (IsKept true seq payload) gs
IsKept-Survives seq payload none_left h = tt
IsKept-Survives seq payload (kept f s) (h, hs) = (h, IsKept-Survives seq payload s hs)
IsKept-Survives seq payload (torn f content d s) (h, hs) =
    ((λ p e. absurd (apart (sym d ∙ (h p e).1))), IsKept-Survives seq payload s hs)
IsKept-Survives seq payload (lost f d s) (h, hs) = IsKept-Survives seq payload s hs

-- A file that is not synced is not the published file of a payload that is kept.
torn_other :
    (seq : ℕ) (payload : Bytes) (f : File)
    → IsKept true seq payload f
    → f.durable ≡ false
    → (f.published && f.seq == seq) ≡ false
torn_other seq payload f h d = elim (Bool-cases (f.published && f.seq == seq)) [
  | inl e ↦
      let p : f.published ≡ true = ground (arith, e) in
      let g : (f.seq == seq) ≡ true = ground (arith, e) in
      absurd (apart (sym d ∙ (h p ((==_iff f.seq seq).0 g)).1))
  | inr e ↦ e
]

-- A published file that is synced is left.
pub is_there-Survives :
    (seq : ℕ) (payload : Bytes) {fs gs : List File}
    → Survives fs gs
    → All (IsKept true seq payload) fs
    → is_there seq fs ≡ true
    → is_there seq gs ≡ true
unfolding is_there
is_there-Survives seq payload none_left h t = t
is_there-Survives seq payload (kept {fs} {gs} f s) (h, hs) t =
    elim (Bool-cases (f.published && f.seq == seq)) [
      | inl e ↦ rw e refl
      | inr e ↦ rw e (is_there-Survives seq payload s hs (rw e at t))
    ]
is_there-Survives seq payload (torn f content d s) (h, hs) t =
    let e = torn_other seq payload f h d in rw e (is_there-Survives seq payload s hs (rw e at t))
is_there-Survives seq payload (lost f d s) (h, hs) t =
    is_there-Survives seq payload s hs (rw (torn_other seq payload f h d) at t)
