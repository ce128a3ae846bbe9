-- ===== src/Redact/Lint/Syntax.antt =====
-- Patterns as crates/archiv-redact/src/lint.rs describes them: atoms and groups with their quantifiers.
use archiv_agent.Base.{
  ℕ, ◌≡◌, List, [], ◌∷◌, All, Bool, true, false, not, ◌&&◌, ◌||◌, ◌==◌, is_digit,
}
use archiv_agent.Wire.{Bytes}

pub data Quantifier : Type 0 where
  once : Quantifier
  optional : Quantifier
  star : Quantifier
  plus : Quantifier
  exactly : Bytes → Quantifier
  at_least : Bytes → Quantifier
  between : Bytes → ℕ → Bytes → Quantifier

abbrev pub is_unbounded : Quantifier → Bool
is_unbounded star = true
is_unbounded plus = true
is_unbounded (at_least ds) = true
is_unbounded _ = false

pub data Member : Type 0 where
  plain : ℕ → Member
  escape : ℕ → Member

-- An atom or a group with its quantifier, and what follows it. `|` is an atom.
pub data Pattern : Type 0 where
  empty : Pattern
  byte : ℕ → Quantifier → Pattern → Pattern
  escaped : ℕ → Quantifier → Pattern → Pattern
  class : Bool → Member → List Member → Quantifier → Pattern → Pattern
  group : Bytes → Pattern → Quantifier → Pattern → Pattern

-- The text of a pattern, with a text behind it.
abbrev pub print_bytes : Bytes → Bytes → Bytes
print_bytes [] tail = tail
print_bytes (b ∷ bs) tail = b ∷ print_bytes bs tail

abbrev pub print_quantifier : Quantifier → Bytes → Bytes
print_quantifier once tail = tail
print_quantifier optional tail = b'?' ∷ tail
print_quantifier star tail = b'*' ∷ tail
print_quantifier plus tail = b'+' ∷ tail
print_quantifier (exactly ds) tail = b'{' ∷ print_bytes ds (b'}' ∷ tail)
print_quantifier (at_least ds) tail = b'{' ∷ print_bytes ds (b',' ∷ b'}' ∷ tail)
print_quantifier (between ds d es) tail =
    b'{' ∷ print_bytes ds (b',' ∷ d ∷ print_bytes es (b'}' ∷ tail))

abbrev pub print_member : Member → Bytes → Bytes
print_member (plain c) tail = c ∷ tail
print_member (escape c) tail = b'\\' ∷ c ∷ tail

abbrev pub print_members : List Member → Bytes → Bytes
print_members [] tail = tail
print_members (m ∷ ms) tail = print_member m (print_members ms tail)

-- `^` in front of a class that is negated.
abbrev pub print_negation : Bool → Bytes → Bytes
print_negation true tail = b'^' ∷ tail
print_negation false tail = tail

unfoldable pub print : Pattern → Bytes → Bytes
print empty tail = tail
print (byte c q r) tail = c ∷ print_quantifier q (print r tail)
print (escaped c q r) tail = b'\\' ∷ c ∷ print_quantifier q (print r tail)
print (class negated m ms q r) tail =
    b'['
    ∷ print_negation negated
        (print_member m (print_members ms (b']' ∷ print_quantifier q (print r tail))))
print (group opening inner q r) tail =
    b'(' ∷ print_bytes opening (print inner (b')' ∷ print_quantifier q (print r tail)))

-- An unbounded quantifier stands somewhere in the pattern.
unfoldable pub repeats : Pattern → Bool
repeats empty = false
repeats (byte c q r) = is_unbounded q || repeats r
repeats (escaped c q r) = is_unbounded q || repeats r
repeats (class negated m ms q r) = is_unbounded q || repeats r
repeats (group opening inner q r) = (repeats inner || is_unbounded q) || repeats r

-- Somewhere an unbounded quantifier stands on a group that contains one.
unfoldable pub is_nested : Pattern → Bool
unfolding repeats
is_nested empty = false
is_nested (byte c q r) = is_nested r
is_nested (escaped c q r) = is_nested r
is_nested (class negated m ms q r) = is_nested r
is_nested (group opening inner q r) =
    is_nested inner || ((is_unbounded q && repeats inner) || is_nested r)

-- A byte that opens nothing, ends nothing and repeats nothing.
abbrev pub is_quiet : ℕ → Bool
is_quiet c =
    not (c == b'\\')
    && (not (c == b'[')
        && (not (c == b'(')
            && (not (c == b')') && (not (c == b'*') && (not (c == b'+') && not (c == b'{'))))))

abbrev pub IsQuiet : ℕ → Type 0
IsQuiet c = is_quiet c ≡ true

abbrev pub IsDigit : ℕ → Type 0
IsDigit d = is_digit d ≡ true

abbrev pub HasDigits : Quantifier → Type 0
HasDigits (exactly ds) = All IsDigit ds
HasDigits (at_least ds) = All IsDigit ds
HasDigits (between ds d es) = All IsDigit ds × (IsDigit d × All IsDigit es)
HasDigits _ = Unit

-- A plain member of a class is neither `]` nor `\`, and `^` is escaped.
abbrev pub IsMember : Member → Type 0
IsMember (plain c) = ((c == b']') ≡ false) × (((c == b'\\') ≡ false) × ((c == b'^') ≡ false))
IsMember (escape c) = Unit

-- The pattern is written as it is meant: an atom is no special byte, a count has digits, and behind the
-- `(` of a group there may be its flags.
unfoldable pub IsWritten : Pattern → Type 0
IsWritten empty = Unit
IsWritten (byte c q r) = (IsQuiet c × ((c == b'?') ≡ false)) × (HasDigits q × IsWritten r)
IsWritten (escaped c q r) = HasDigits q × IsWritten r
IsWritten (class negated m ms q r) = IsMember m × (All IsMember ms × (HasDigits q × IsWritten r))
IsWritten (group opening inner q r) =
    All IsQuiet opening × (IsWritten inner × (HasDigits q × IsWritten r))
