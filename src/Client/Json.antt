-- ===== src/Client/Json.antt =====
-- app/src/json_utils.hpp: reading JSON. jansson is a parameter; a null pointer is `none`.
use Prim.Native.String.{◌++◌}
use booster_nx.Common.{
  ℕ, zero, suc, ◌/◌, ◌%◌, Bool, Option, none, some, List, ltb, get_or, String, if◌then◌else◌,
}
use booster_nx.Common.Int.{ℤ, pos, negsuc}
use booster_nx.Common.Word.{signed32, to_u32}

-- jansson: a parsed text, a member of an object (`none` also of what is no object), and the values
-- of strings, integers, booleans and arrays (`none` of other kinds).
pub record Jansson : Type 1 where
  pub Json : Type 0
  pub loads : String → Option Json
  pub member : Json → String → Option Json
  pub is_object : Json → Bool
  pub string_value : Json → Option String
  pub integer_value : Json → Option ℤ
  pub boolean_value : Json → Option Bool
  pub elements : Json → Option (List Json)

abbrev digit : ℕ → String
digit n =
    get_or {A = String}
      (List.◌∷◌ "0" (
        List.◌∷◌ "1" (
          List.◌∷◌ "2" (
            List.◌∷◌ "3" (
              List.◌∷◌ "4" (
                List.◌∷◌ "5"
                  (List.◌∷◌ "6" (List.◌∷◌ "7" (List.◌∷◌ "8" (List.◌∷◌ "9" List.[]))))))))))
      n "0"

-- `std::to_string`: a 64-bit number has twenty digits at most.
unfoldable pub decimal : ℕ → ℕ → String
decimal zero n = ""
decimal (suc left) n =
    let rest = decimal left (n / 10) in if ltb n 10 then digit n else rest ++ digit (n % 10)

abbrev pub to_text : ℤ → String
to_text (pos n) = decimal 20 n
to_text (negsuc n) = "-" ++ decimal 20 (suc n)

module _ (J : Jansson) where
  abbrev pub member_of : Option J.Json → String → Option J.Json
  member_of none key = none
  member_of (some j) key = J.member j key

  abbrev pub text_or : Option String → Option ℤ → String
  text_or (some s) n = s
  text_or none (some n) = to_text n
  text_or none none = ""

  -- `AsString`.
  abbrev pub as_string : Option J.Json → String
  as_string none = ""
  as_string (some j) = text_or (J.string_value j) (J.integer_value j)

  -- `GetString`.
  abbrev pub get_string : Option J.Json → String → String
  get_string none key = ""
  get_string (some j) key = if J.is_object j then as_string (J.member j key) else ""

  abbrev pub integer_of : Option J.Json → Option ℤ
  integer_of none = none
  integer_of (some j) = J.integer_value j

  -- `static_cast<int>` of what an integer holds.
  abbrev pub int_or : Option ℤ → ℤ → ℤ
  int_or none fallback = fallback
  int_or (some z) fallback = signed32 (to_u32 z)

  -- `GetInteger`.
  abbrev pub get_integer : Option J.Json → String → ℤ → ℤ
  get_integer none key fallback = fallback
  get_integer (some j) key fallback =
      if J.is_object j then int_or (integer_of (J.member j key)) fallback else fallback

  abbrev bool_or : Option Bool → Bool → Bool
  bool_or none fallback = fallback
  bool_or (some b) fallback = b

  abbrev boolean_of : Option J.Json → Option Bool
  boolean_of none = none
  boolean_of (some j) = J.boolean_value j

  -- `GetBool`.
  abbrev pub get_bool : Option J.Json → String → Bool → Bool
  get_bool none key fallback = fallback
  get_bool (some j) key fallback =
      if J.is_object j then bool_or (boolean_of (J.member j key)) fallback else fallback

  abbrev pub gateway_text : Option J.Json → String
  gateway_text none = ""
  gateway_text (some j) = elim (J.string_value j) [
    | some s ↦ s
    | none ↦ if J.is_object j then get_string (some j) "address" else ""
  ]

  -- `GetGatewayAddress`.
  abbrev pub get_gateway_address : Option J.Json → String → String
  get_gateway_address none key = ""
  get_gateway_address (some j) key = if J.is_object j then gateway_text (J.member j key) else ""
