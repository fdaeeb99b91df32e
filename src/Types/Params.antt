-- ===== src/Types/Params.antt =====
-- chain/x/agntcoin/types/params.go: the module's parameters and their validation.
use ag3nt_coin.Base.{String, Bool, true, false, List, [], ◌∷◌, ◌||◌, str_eq, if◌then◌else◌}

-- Membership, as the loops `for _, v := range list { if v == addr { return true } }` test it.
unfoldable pub contains : String → List String → Bool
contains a [] = false
contains a (x ∷ xs) = str_eq x a || contains a xs

-- `Params.Validate`: no anchor is empty, and none occurs twice.
validate_anchors : List String → List String → Bool
validate_anchors seen [] = true
validate_anchors seen (a ∷ rest) =
    let valid = validate_anchors (a ∷ seen) rest in
    if str_eq a "" then false else if contains a seen then false else valid

unfoldable pub validate_params : List String → Bool
unfolding validate_anchors
validate_params anchors = validate_anchors [] anchors
