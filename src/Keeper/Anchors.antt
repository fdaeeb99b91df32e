-- ===== src/Keeper/Anchors.antt =====
-- The trust roots: `resolveAnchors` and `splitAnchors` of chain/x/agntcoin/keeper/query_reputation.go.
use Prim.Native.String.{◌++◌ as text_append}
use Prim.Native.Char.{code}
use ag3nt_coin.Base.{
  ℕ, String, Bool, Option, none, some, List, [], ◌∷◌, ◌||◌, ◌==◌, str_eq, if◌then◌else◌,
}
use ag3nt_coin.Base.Text.{trim_space}
use ag3nt_coin.Keeper.Defs.{Env}

-- `,`, newline, carriage return, space, tab
is_separator : ℕ → Bool
is_separator c = (c == b',') || (c == 10) || (c == 13) || (c == 32) || (c == 9)

add_field : String → List String → List String
add_field field rest = if str_eq field "" then rest else field ∷ rest

-- The field read so far, and the rest of the text.
split_fields : String → String → List String
unfolding is_separator add_field
split_fields field String.[] = add_field field []
split_fields field (String.◌∷◌ c s) =
    let ended = add_field field (split_fields "" s) in
    let going = split_fields (text_append field (String.◌∷◌ c String.[])) s in
    if is_separator (code c) then ended else going

unfoldable pub split_anchors : String → List String
unfolding split_fields
split_anchors = split_fields ""

-- The development fallbacks: an environment variable, then a file.
anchors_path : Env → String
anchors_path env =
    let path = trim_space (env.getenv "AGNTCOIN_ANCHORS_FILE") in
    if str_eq path "" then home env.user_home else path
  where
    home : Option String → String
    home none = ""
    home (some dir) = text_append dir "/.agntcoin/anchors.txt"

split_file : Option String → List String
split_file none = []
split_file (some text) = split_anchors text

dev_anchors : Env → List String
unfolding anchors_path split_file
dev_anchors env =
    let raw = trim_space (env.getenv "AGNTCOIN_ANCHORS") in
    if str_eq raw ""
    then (if str_eq (anchors_path env) ""
        then []
        else split_file (env.read_file (anchors_path env)))
    else split_anchors raw

unfoldable pub resolve_anchors : Env → List String → List String
unfolding dev_anchors
resolve_anchors env [] = dev_anchors env
resolve_anchors env (a ∷ rest) = a ∷ rest
