-- ===== src/Pack/Roster.antt =====
-- The roster of the pack, as the command prints it and as it is read.
use cf_herdr_poc.Base.{
  ℕ, Bytes, codes, Bool, true, false, ◌≡◌, ◌≢◌, refl, none, some, List, [], ◌∷◌, ◌++◌, arith,
  if◌then◌else◌, ◌==◌, ◌||◌, All, cut_at, bytes_eq, not, Bool-cases, ◌&&◌, inl, inr,
}
use cf_herdr_poc.Cf.{is_lower, is_digit, every}
use cf_herdr_poc.Base.Exec.{ok}
use cf_herdr_poc.Pack.{
  System, Config, run, status_args, member_present, validate_member, is_member, is_role,
  split_lines, roster_member, is_listed,
}

-- A member as the command prints it; `rest` is what follows the role in the line.
pub record Row : Type 0 where
  pub name : Bytes
  pub lead : Bool
  pub rest : Bytes

abbrev pub role : Bool → Bytes
role true = codes " (lead)  "
role false = codes " (peer)  "

abbrev pub print : Row → Bytes
print r = codes "  " ++ (r.name ++ (b' ' ∷ (role r.lead ++ r.rest)))

-- A line of the status: a member's, or any other (the header, and the details of a member).
pub data Line : Type 0 where
  member : Row → Line
  other : Bytes → Line

abbrev pub print_one : Line → Bytes
print_one (member r) = print r
print_one (other text) = text

abbrev pub print_all : List Line → Bytes
print_all [] = []
print_all (l ∷ ls) = print_one l ++ (b'\n' ∷ print_all ls)

abbrev pub named : Bytes → List Line → Bool
named id [] = false
named id (member r ∷ ls) = let later = named id ls in if bytes_eq r.name id then true else later
named id (other text ∷ ls) = named id ls

-- The line is not indented by two spaces, or by more.
abbrev pub is_other : Bytes → Bool
is_other (c ∷ d ∷ e ∷ s) = not ((c == b' ') && (d == b' ')) || e == b' '
is_other _ = true

-- The name is a member's, and the rest is in one line.
pub record IsRow (r : Row) : Type 0 where
  pub member : is_member r.name ≡ true
  pub one_line : All (λ c. c ≢ b'\n') r.rest

abbrev pub IsLine : Line → Type 0
IsLine (member r) = IsRow r
IsLine (other text) = (is_other text ≡ true) × All (λ c. c ≢ b'\n') text

abbrev dashed : ℕ → Bool
dashed d = is_lower d || is_digit d || d == b'-'

-- No space and no end of a line.
abbrev Plain : ℕ → Type 0
Plain c = (c ≢ b' ') × (c ≢ b'\n')

plain : (c : ℕ) → dashed c ≡ true → Plain c
unfolding is_lower is_digit
plain c h = (λ e. ground arith, λ e. ground arith)

all_plain : (s : Bytes) → every dashed s ≡ true → All Plain s
unfolding every
all_plain [] h = tt
all_plain (c ∷ s) h = (plain c (ground arith), all_plain s (ground arith))

member_plain : (s : Bytes) → is_member s ≡ true → All Plain s
unfolding is_member
member_plain [] h = tt
member_plain (c ∷ s) h = (plain c (ground arith), all_plain s (ground arith))

cut_name : (s t : Bytes) → All Plain s → cut_at b' ' (s ++ (b' ' ∷ t)) ≡ some (s, t)
unfolding cut_at
cut_name [] t h = refl
cut_name (c ∷ s) t h = ground (arith, h.0, cut_name s t h.1)

role-is_role : (b : Bool) (rest : Bytes) → is_role (role b ++ rest) ≡ true
role-is_role true rest = refl
role-is_role false rest = refl

roster-print : (r : Row) → IsRow r → roster_member (print r) ≡ some r.name
unfolding roster_member
roster-print r h =
    let tail = role r.lead ++ r.rest in
    rw (cut_name r.name tail (member_plain r.name h.member), roster_member)
      (rw (h.member, role-is_role r.lead r.rest) refl)

abbrev OneLine : ℕ → Type 0
OneLine c = c ≢ b'\n'

split_line : (s t : Bytes) → All OneLine s → split_lines (s ++ (b'\n' ∷ t)) ≡ s ∷ split_lines t
unfolding split_lines
split_line [] t h = refl
split_line (c ∷ s) t h = rw (split_line s t h.1) (ground (arith, h.0))

all_append : (s t : Bytes) → All OneLine s → All OneLine t → All OneLine (s ++ t)
all_append [] t h k = k
all_append (c ∷ s) t h k = (h.0, all_append s t h.1 k)

plain_line : (s : Bytes) → All Plain s → All OneLine s
plain_line [] h = tt
plain_line (c ∷ s) h = (h.0.1, plain_line s h.1)

pub by_test : (s : Bytes) → every (λ c. not (c == b'\n')) s ≡ true → All OneLine s
unfolding every
by_test [] h = tt
by_test (c ∷ s) h = ((λ e. ground arith), by_test s (ground arith))

role_line : (b : Bool) → All OneLine (role b)
unfolding every
role_line true = by_test (role true) refl
role_line false = by_test (role false) refl

print_line : (r : Row) → IsRow r → All OneLine (print r)
unfolding every
print_line r h =
    all_append (codes "  ") (r.name ++ (b' ' ∷ (role r.lead ++ r.rest))) (by_test (codes "  ") refl)
      (all_append r.name (b' ' ∷ (role r.lead ++ r.rest))
        (plain_line r.name (member_plain r.name h.member))
        (all_append (codes " ") (role r.lead ++ r.rest) (by_test (codes " ") refl)
          (all_append (role r.lead) r.rest (role_line r.lead) h.one_line)))

roster-other : (s : Bytes) → is_other s ≡ true → roster_member s ≡ none
unfolding roster_member cut_at is_member
roster-other [] h = refl
roster-other (c ∷ []) h = refl
roster-other (c ∷ d ∷ []) h = ground arith
roster-other (c ∷ d ∷ e ∷ s) h = elim (Bool-cases (e == b' ')) [
  | inl p ↦ rw p (ground arith)
  | inr p ↦ ground arith
]

listed-print :
    (id : Bytes) (ls : List Line)
    → All IsLine ls
    → is_listed id (split_lines (print_all ls)) ≡ named id ls
unfolding is_listed split_lines roster_member
listed-print id [] h = refl
listed-print id (member r ∷ ls) h =
    rw (split_line (print r) (print_all ls) (print_line r h.0))
      (rw (roster-print r h.0, is_listed) (rw (listed-print id ls h.1) refl))
listed-print id (other text ∷ ls) h =
    rw (split_line text (print_all ls) h.0.1)
      (rw (roster-other text h.0.0, is_listed) (listed-print id ls h.1))

-- If the command prints lines, of which some are members' and the others are indented by less or
-- more than two spaces, and the names are names of members, then `MemberPresent` tells whether the
-- name is the name of one of the members.
pub member_present-print :
    {W H : Type 0} (sys : System W H) (config : Config) (id : Bytes) (ls : List Line) (w : W)
    → is_member id ≡ true
    → All IsLine ls
    → (run sys config status_args w).1 ≡ print_all ls
    → (run sys config status_args w).2 ≡ none
    → (member_present sys config id w).1 ≡ ok (named id ls)
unfolding member_present validate_member
member_present-print sys config id ls w m h p e =
    rw (m, validate_member, member_present)
      (rw (e, member_present) (rw (p, listed-print id ls h) refl))
