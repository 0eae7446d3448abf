-- ===== src/Path.antt =====
-- Clean and Join of Go's packages path and path/filepath. Texts are split at the slashes.
use Prim.Native.Char.{code}
use deployd.Prelude.{
  String, ◌<>◌, ◌≡◌, refl, Bool, true, false, List, [], ◌∷◌, ◌==◌, nat_beq, if◌then◌else◌,
}

-- The text in front of the first slash goes to the head of the list.
abbrev prepend : Bool → String → List String → List String
prepend true c parts = "" ∷ parts
prepend false c [] = c ∷ []
prepend false c (p ∷ parts) = (c <> p) ∷ parts

unfoldable pub split_slash : String → List String
split_slash String.[] = "" ∷ []
split_slash (String.◌∷◌ c s) =
    prepend (nat_beq (code c) b'/') (String.◌∷◌ c String.[]) (split_slash s)

-- One element of the path: empty and "." vanish, ".." takes back the last one.
abbrev take_back : Bool → List String → List String
take_back rooted [] = if rooted then [] else ".." ∷ []
take_back rooted (p ∷ out) = if p == ".." then ".." ∷ p ∷ out else out

abbrev clean_part : Bool → String → List String → List String
clean_part rooted p out =
    if p == ""
    then out
    else if p == "."
    then out
    else if p == ".."
    then take_back rooted out
    else p ∷ out

-- `out` is the stack of the elements that stand, the last one first.
clean_parts : Bool → List String → List String → List String
clean_parts rooted [] out = out
clean_parts rooted (p ∷ ps) out = clean_parts rooted ps (clean_part rooted p out)

join_back : List String → String → String
join_back [] s = s
join_back (p ∷ out) s = join_back out (if s == "" then p else p <> "/" <> s)

is_rooted : List String → Bool
is_rooted (p ∷ q ∷ ps) = p == ""
is_rooted _ = false

-- path.Clean
unfoldable pub clean : String → String
unfolding split_slash clean_parts join_back is_rooted
clean s =
    let parts = split_slash s in
    let rooted = is_rooted parts in
    let out = join_back (clean_parts rooted parts []) "" in
    if rooted then "/" <> out else if out == "" then "." else out

-- The elements that are not empty, with slashes between them.
join_raw : List String → String
join_raw [] = ""
join_raw (p ∷ ps) =
    let rest = join_raw ps in if p == "" then rest else if rest == "" then p else p <> "/" <> rest

-- path.Join, and filepath.Join on a system with slashes
unfoldable pub join : List String → String
unfolding clean join_raw
join ps = let raw = join_raw ps in if raw == "" then "" else clean raw

join_test : join (clean "/data/../var//lib/." ∷ "ns_svc" ∷ []) ≡ "/var/lib/ns_svc"
unfolding join
join_test = refl

clean_test : clean "../a/../../b/" ≡ "../../b"
unfolding clean
clean_test = refl
