-- ===== src/Js/Tests.antt =====
-- Runs of the numbers, texts and JSON of this part.
use mathlib.Core.Option
use xrpl.Prelude.{◌≡◌, refl, false, some, none, [], ◌∷◌, Option}
use xrpl.Js.Text.{Text, lit}
use xrpl.Js.Number.{add, sqrt, div, of_ℕ, round}
use xrpl.Js.Number.Show.{number_text}
use xrpl.Js.Utf8.{encode, decode}
use xrpl.Js.Json.Parse.{parse}
use xrpl.Js.Json.Print.{stringify}

abbrev reprint : Text → Option Text
reprint s = Option.map stringify (parse s)

json_run :
    reprint (lit " { \"a\" : [1, 2.50, -3e2, 1e21, 1e-7] , \"b\":{}, \"c\":\"x\\u0041\\n\\\"\"}")
    ≡ some (lit "{\"a\":[1,2.5,-300,1e+21,1e-7],\"b\":{},\"c\":\"xA\\n\\\"\"}")
unfolding parse stringify round
json_run = refl

json_refused : parse (lit "[01]") ≡ none
unfolding parse
json_refused = refl

sum_run : number_text (add (round false 1 10) (round false 2 10)) ≡ lit "0.30000000000000004"
unfolding number_text add round
sum_run = refl

root_run : number_text (sqrt (of_ℕ 2)) ≡ lit "1.4142135623730951"
unfolding number_text sqrt
root_run = refl

third_run : number_text (div (of_ℕ 1) (of_ℕ 3)) ≡ lit "0.3333333333333333"
unfolding number_text div
third_run = refl

utf8_run :
    decode (encode (0xE9 ∷ 0x20AC ∷ 0xD83D ∷ 0xDE00 ∷ [])) ≡ 0xE9 ∷ 0x20AC ∷ 0xD83D ∷ 0xDE00 ∷ []
unfolding decode encode
utf8_run = refl
