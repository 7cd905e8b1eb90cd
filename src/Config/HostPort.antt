-- ===== src/Config/HostPort.antt =====
-- conjure-runtime-config/src/lib.rs: a host and a port as text. Characters are their code points.
--
-- A `u16` is printed in decimal, and read from decimal digits, which a plus sign may precede, if it fits.
use conjure_rust_runtime.Prelude.{
  ℕ, zero, suc, ◌+◌, ◌-◌, ◌*◌, ◌/◌, ◌%◌, Bool, true, false, Option, none, some, List, [], ◌∷◌, ◌++◌,
  ltb, leb, ◌==◌, ◌&&◌, ◌>>=◌, if◌then◌else◌,
}
use conjure_rust_runtime.Config.{Text, HostAndPort}
pub mod Digits
pub mod RoundTrip

abbrev pub colon : ℕ
colon = 58

abbrev pub plus : ℕ
plus = 43

abbrev pub u16_max : ℕ
u16_max = 65_535

-- So many digits at most.
unfoldable pub digits : ℕ → ℕ → Text
digits zero n = []
digits (suc fuel) n =
    let before = digits fuel (n / 10) in
    if ltb n 10 then (48 + n) ∷ [] else before ++ (48 + n % 10) ∷ []

abbrev pub show_u16 : ℕ → Text
show_u16 n = digits 5 n

abbrev pub is_digit : ℕ → Bool
is_digit c = leb 48 c && ltb c 58

abbrev pub push_digit : ℕ → ℕ → Option ℕ
push_digit acc c =
    if is_digit c
    then if leb (acc * 10 + (c - 48)) u16_max then some (acc * 10 + (c - 48)) else none
    else none

unfoldable pub read_digits : ℕ → Text → Option ℕ
read_digits acc [] = some acc
read_digits acc (c ∷ cs) = push_digit acc c >>= λ n. read_digits n cs

-- An empty text is no number, also after a sign.
abbrev pub read_some : Text → Option ℕ
read_some [] = none
read_some (c ∷ cs) = read_digits 0 (c ∷ cs)

abbrev pub skip_plus : Text → Text
skip_plus [] = []
skip_plus (c ∷ cs) = if c == plus then cs else c ∷ cs

unfoldable pub parse_u16 : Text → Option ℕ
parse_u16 s = read_some (skip_plus s)

-- What is before the first colon and after it, if there is one.
abbrev pub before_first : ℕ → Option (Text × Text) → Option (Text × Text)
before_first c none = none
before_first c (some (host, rest)) = some (c ∷ host, rest)

unfoldable pub split_at_colon : Text → Option (Text × Text)
split_at_colon [] = none
split_at_colon (c ∷ cs) =
    let rest = split_at_colon cs in if c == colon then some ([], cs) else before_first c rest

abbrev pub with_port : Text → Option ℕ → Option HostAndPort
with_port host none = none
with_port host (some port) = some (record { host = host; port = port })

abbrev pub parse_parts : Option (Text × Text) → Option HostAndPort
parse_parts none = none
parse_parts (some (host, rest)) = with_port host (parse_u16 rest)

-- `Display`, and `Deserialize` of a string.
unfoldable pub fmt : HostAndPort → Text
fmt h = h.host ++ colon ∷ show_u16 h.port

unfoldable pub deserialize : Text → Option HostAndPort
deserialize s = parse_parts (split_at_colon s)
