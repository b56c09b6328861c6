-- ===== src/Uart/Text.antt =====
-- What src/uart_commands.c uses of the C library on strings. A C string is the list of its characters
-- without the NUL; reading at its end reads that NUL.
pub mod Laws
use zephyr_secure_supervisor.Base.{
  ℕ, suc, ◌+◌, ◌*◌, ◌-◌, ◌%◌, Bool, true, false, not, ◌&&◌, ◌||◌, leb, ltb, ◌==◌, if◌then◌else◌,
  List, [], ◌∷◌,
}

abbrev pub String : Type 0
String = List ℕ

-- `isspace` in the C locale.
abbrev pub is_space : ℕ → Bool
is_space c = c == 32 || leb 9 c && leb c 13

unfoldable pub skip_spaces : String → String
skip_spaces [] = []
skip_spaces (c ∷ s) = let rest = skip_spaces s in if is_space c then rest else c ∷ s

-- `strncmp(s, prefix, strlen(prefix)) == 0`, for a prefix of no NUL.
unfoldable pub has_prefix : String → String → Bool
has_prefix [] s = true
has_prefix (p ∷ prefix) [] = false
has_prefix (p ∷ prefix) (c ∷ s) = p == c && has_prefix prefix s

-- A token, up to a space or the end, and what follows it.
unfoldable pub token : String → String
token [] = []
token (c ∷ s) = let rest = token s in if is_space c then [] else c ∷ rest

unfoldable pub after_token : String → String
after_token [] = []
after_token (c ∷ s) = let rest = after_token s in if is_space c then c ∷ s else rest

-- The string in a buffer that is closed by a NUL: up to the first NUL.
unfoldable pub c_string : String → String
c_string [] = []
c_string (c ∷ s) = let rest = c_string s in if c == 0 then [] else c ∷ rest

abbrev pub is_digit : ℕ → Bool
is_digit c = leb b'0' c && leb c b'9'

-- What `strtoul` finds: its value, `*endptr`, whether it read a digit, and whether it sets `errno`.
pub record Number : Type 0 where
  pub value : ℕ
  pub end : String
  pub found : Bool
  pub overflow : Bool

-- The digits from here on, with no bound on the value.
unfoldable pub digits : ℕ → Bool → String → Number
digits n found [] = record { value = n; end = []; found = found; overflow = false }
digits n found (c ∷ s) =
    let rest = digits (n * 10 + (c - b'0')) true s in
    if is_digit c then rest else record { value = n; end = c ∷ s; found = found; overflow = false }

-- The limit of `unsigned long`, whose largest value is `max`: past it the value is `max`, with ERANGE.
-- Behind a minus sign the value is negated in that type.
abbrev pub limited : ℕ → Number → Number
limited max r = if ltb max r.value then record r { value = max; overflow = true } else r

abbrev pub negated : ℕ → Number → Number
negated max r = if r.overflow then r else record r { value = (max + 1 - r.value) % (max + 1) }

unfoldable pub signed : ℕ → String → Number
signed max [] = record { value = 0; end = []; found = false; overflow = false }
signed max (c ∷ s) =
    if c == b'-'
    then negated max (limited max (digits 0 false s))
    else if c == b'+'
    then limited max (digits 0 false s)
    else limited max (digits 0 false (c ∷ s))

-- `strtoul(s, &end, 10)`; where it finds no digit, `end` is `s`.
unfoldable pub strtoul : ℕ → String → Number
strtoul max s =
    let r = signed max (skip_spaces s) in
    if r.found then r else record { value = 0; end = s; found = false; overflow = false }
