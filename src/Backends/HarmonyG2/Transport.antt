-- ===== src/Backends/HarmonyG2/Transport.antt =====
-- backends/harmony_g2/transport.py: the checks of what a transport is made with and what it is
-- asked, before there is a connection. The parser and the printer of IPv4 addresses are arguments.
pub mod Json
pub mod Pinned
pub mod Phases
pub mod Steps
pub mod Pins
pub mod Sendable
pub mod Sizes
pub mod Pages
pub mod OnOff
pub mod Routes
pub mod Refusals
pub mod Writing
use smartenit_rescue.Prelude.Number.{negsuc, finite, pos, Float}
use smartenit_rescue.Prelude.Text.{text_eq, is_space, lower, is_hex, codes, split, after_prefix}
use smartenit_rescue.Prelude.Result.{
  ◌>>=◌, ◌>>◌, overflow_error, validation, python, err, ok, raise_if, Result, Text,
}
use smartenit_rescue.Prelude.Value.{str, int, float, Value}
use smartenit_rescue.Prelude.{
  zero, true, contains, none, any, suc, not, ltb, map, [], ◌||◌, ◌+◌, ◌==◌, ◌^◌, some, all, ◌-◌,
  ◌*◌, false, ◌/◌, length, ◌===◌, ◌&&◌, leb, ◌∷◌, if◌then◌else◌, Option, Bool, List, ℕ,
}
use smartenit_rescue.Backends.HarmonyG2.Client.{is_safe_segment}
use mathlib.Core.List.{reverse}

-- The value of a digit.
hex_digit : ℕ → ℕ
hex_digit c = if leb c b'9' then c - b'0' else if leb c b'F' then c - 55 else c - 87

-- `bytes.fromhex(s)` for an even number of hexadecimal digits
unfoldable pub from_hex : Text → Text
unfolding hex_digit
from_hex [] = []
from_hex (c ∷ []) = []
from_hex (c ∷ d ∷ s) = (hex_digit c * 16 + hex_digit d) ∷ from_hex s

-- `s.replace(":", "")`
unfoldable pub without_colons : Text → Text
without_colons [] = []
without_colons (c ∷ s) = if c == b':' then without_colons s else c ∷ without_colons s

-- `(?:[0-9a-fA-F]{2}:){n}[0-9a-fA-F]{2}`
unfoldable pub is_colon_pin : ℕ → Text → Bool
is_colon_pin zero (c ∷ d ∷ []) = is_hex c && is_hex d
is_colon_pin (suc n) (c ∷ d ∷ e ∷ s) = is_hex c && (is_hex d && (e == b':' && is_colon_pin n s))
is_colon_pin _ _ = false

-- `_PIN.fullmatch(value)`
unfoldable pub is_pin : Text → Bool
is_pin s = (length s == 64 && all is_hex s) || is_colon_pin 31 s

-- `_pin_digest`
unfoldable pub pin_digest : Value → Result Text
pin_digest (str s) =
    if is_pin s
    then ok (from_hex (without_colons s))
    else err (validation (codes "G2 certificate pin must be a SHA-256 fingerprint"))
pin_digest _ = err (validation (codes "G2 certificate pin must be a SHA-256 fingerprint"))

-- `_port`
unfoldable pub port_number : Value → Result ℕ
port_number (int (pos n)) =
    if leb 1 n && leb n 65535
    then ok n
    else err (validation (codes "G2 port must be between 1 and 65535"))
port_number _ = err (validation (codes "G2 port must be between 1 and 65535"))

-- the integers that no double can hold, for which `math.isfinite` raises OverflowError
abbrev overflows : ℕ → Bool
overflows n = leb (2 ^ 1024 - 2 ^ 970) n

-- `_timeout`
unfoldable pub timeout_seconds : Value → Result Float
timeout_seconds (int (pos n)) =
    if overflows n
    then err (python overflow_error)
    else if ltb 0 n && leb n 30
    then ok (finite (pos n) 0)
    else err (validation (codes "G2 timeout must be positive and bounded"))
timeout_seconds (int (negsuc n)) =
    if overflows (n + 1)
    then err (python overflow_error)
    else err (validation (codes "G2 timeout must be positive and bounded"))
timeout_seconds (float (finite (pos m) k)) =
    if ltb 0 m && leb m (30 * 2 ^ k)
    then ok (finite (pos m) k)
    else err (validation (codes "G2 timeout must be positive and bounded"))
timeout_seconds _ = err (validation (codes "G2 timeout must be positive and bounded"))

-- `address in network`, for the networks of `_LAN_NETWORKS`
unfoldable pub is_lan : ℕ → Bool
is_lan a = a / 2 ^ 24 == 10 || (a / 2 ^ 20 == 2753 || (a / 2 ^ 16 == 49320 || a / 2 ^ 24 == 127))

-- `_lan_host`
unfoldable pub lan_host : (Value → Option ℕ) → (ℕ → Text) → Value → Result Text
lan_host parse_ipv4 show_ipv4 value = elim (parse_ipv4 value) [
  | none ↦ err (validation (codes "G2 host must be a LAN IPv4 literal"))
  | some a ↦
      if is_lan a
      then ok (show_ipv4 a)
      else err (validation (codes "G2 host must be a LAN IPv4 literal"))
]

abbrev is_digit : ℕ → Bool
is_digit c = leb b'0' c && leb c b'9'

-- `(?:100|[1-9][0-9]?)`
unfoldable pub is_page_number : Text → Bool
is_page_number (c ∷ []) = leb b'1' c && leb c b'9'
is_page_number (c ∷ d ∷ []) = (leb b'1' c && leb c b'9') && is_digit d
is_page_number (c ∷ d ∷ e ∷ []) = c == b'1' && (d == b'0' && e == b'0')
is_page_number _ = false

-- `_INVENTORY_PATH.fullmatch(path)`
unfoldable pub is_inventory_path : Text → Bool
is_inventory_path path = elim (after_prefix (codes "/v2/devices?limit=100&page=") path) [
  | none ↦ false
  | some page ↦ is_page_number page
]

-- `_COMMAND_PATH.fullmatch(path)`. The two segments of the pattern hold no slash, so a path matches
-- in one way at most: part by part.
unfoldable pub is_command_parts : List Text → Bool
is_command_parts (root ∷ v2 ∷ devices ∷ d ∷ comps ∷ c ∷ procs ∷ on_off ∷ methods ∷ m ∷ []) =
    root === []
    && (v2 === codes "v2"
        && (devices === codes "devices"
            && (is_safe_segment d
                && (comps === codes "comps"
                    && (is_safe_segment c
                        && (procs === codes "procs"
                            && (on_off === codes "OnOff"
                                && (methods === codes "methods"
                                    && (m === codes "On" || m === codes "Off")))))))))
is_command_parts _ = false

unfoldable pub is_command_path : Text → Bool
unfolding is_command_parts
is_command_path path = is_command_parts (split b'/' path)

-- the routes of `_validate_route`
unfoldable pub is_allowed_route : Text → Text → Bool
is_allowed_route method path =
    (method === codes "GET" && (path === codes "/v2/ping" || is_inventory_path path))
    || (method === codes "POST" && (path === codes "/v2/oauth2/token" || is_command_path path))

-- `_validate_route` on strings
unfoldable pub checked_route : Text → Text → Result (Text × Text)
checked_route method path = do
  raise_if (any (λ c. c == 13 || (c == 10 || c == b'#')) path)
      (validation (codes "G2 request path is not allowed"))
  raise_if (not (is_allowed_route method path))
      (validation (codes "G2 request path is not allowed"))
  ok (method, path)

unfoldable pub path_route : Text → Value → Result (Text × Text)
path_route method (str path) = checked_route method path
path_route method _ = err (validation (codes "G2 request path is not allowed"))

-- `_validate_route`
unfoldable pub validate_route : Value → Value → Result (Text × Text)
validate_route (str method) path =
    if not (contains method (codes "GET" ∷ codes "POST" ∷ []))
    then err (validation (codes "G2 request method is not allowed"))
    else path_route method path
validate_route _ path = err (validation (codes "G2 request method is not allowed"))

-- the test of `_validate_credential` on a string
unfoldable pub is_credential : Text → Bool
is_credential s =
    leb 1 (length s)
    && (leb (length s) 8192
        && (all (λ c. ltb c 128) s && not (any (λ c. ltb c 0x21 || ltb 0x7E c) s)))

-- `_validate_credential`
unfoldable pub validate_credential : Value → Result Text
validate_credential (str s) =
    if is_credential s then ok s else err (validation (codes "G2 request credential is invalid"))
validate_credential _ = err (validation (codes "G2 request credential is invalid"))

-- `part.strip()` and `part.strip('"')`, by the test of the characters that go
unfoldable pub strip_left : (ℕ → Bool) → Text → Text
strip_left gone [] = []
strip_left gone (c ∷ s) = if gone c then strip_left gone s else c ∷ s

abbrev strip : (ℕ → Bool) → Text → Text
strip gone s = reverse (strip_left gone (reverse (strip_left gone s)))

-- `part.partition("=")`
unfoldable pub partition : ℕ → Text → Text × Bool × Text
partition sep [] = ([], false, [])
partition sep (c ∷ s) =
    let (head, found, tail) = partition sep s in
    if c == sep then ([], true, s) else (c ∷ head, found, tail)

is_utf8_charset : Text × Bool × Text → Bool
is_utf8_charset (name, found, charset) =
    found
    && (lower (strip is_space name) === codes "charset"
        && lower (strip (λ c. c == b'"') (strip is_space charset)) === codes "utf-8")

media_type : List Text → Bool
unfolding is_utf8_charset
media_type [] = false
media_type (kind ∷ []) = lower kind === codes "application/json"
media_type (kind ∷ parameter ∷ []) =
    lower kind === codes "application/json" && is_utf8_charset (partition b'=' parameter)
media_type _ = false

-- `_content_type`
unfoldable pub content_type : Option Text → Bool
unfolding media_type
content_type none = false
content_type (some value) = media_type (map (strip is_space) (split b';' value))
