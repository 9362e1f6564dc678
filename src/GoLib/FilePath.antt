-- ===== src/GoLib/FilePath.antt =====
-- Package path: Clean, Join of two elements, Dir.
use mathlib.Core.List.{reverse}
use cnf_nsm.Common.{
  ℕ, Bool, true, false, ◌||◌, List, [], ◌∷◌, ◌++◌, ◌==◌, Bytes, str_eq, if◌then◌else◌, refl, codes,
  ◌≡◌,
}
use cnf_nsm.GoLib.Strings.{split, join}

is_rooted : Bytes → Bool
is_rooted [] = false
is_rooted (c ∷ s) = c == b'/'

-- What `..` does to the elements read so far, the last one first.
climb : Bool → List Bytes → List Bytes
climb true [] = []
climb false [] = codes ".." ∷ []
climb rooted (p ∷ ps) = if str_eq p (codes "..") then codes ".." ∷ p ∷ ps else ps

-- One element of the path.
resolve : Bool → List Bytes → Bytes → List Bytes
unfolding climb
resolve rooted stack part =
    if str_eq part [] || str_eq part (codes ".")
    then stack
    else if str_eq part (codes "..")
    then climb rooted stack
    else part ∷ stack

resolve_all : Bool → List Bytes → List Bytes → List Bytes
unfolding resolve
resolve_all rooted stack [] = stack
resolve_all rooted stack (p ∷ ps) = resolve_all rooted (resolve rooted stack p) ps

or_dot : Bytes → Bytes
or_dot [] = codes "."
or_dot (c ∷ s) = c ∷ s

unfoldable pub clean : Bytes → Bytes
unfolding is_rooted resolve_all or_dot split join str_eq
clean s =
    let rooted = is_rooted s in
    or_dot (
      (if rooted then codes "/" else [])
      ++ join b'/' (reverse (resolve_all rooted [] (split b'/' s))))

-- Leading elements that are empty are left out.
unfoldable pub join_path : Bytes → Bytes → Bytes
unfolding clean
join_path [] [] = []
join_path [] (c ∷ s) = clean (c ∷ s)
join_path (c ∷ s) t = clean (join b'/' ((c ∷ s) ∷ t ∷ []))

-- A byte stays if it is a slash or has one behind it.
before_slash : ℕ → Bytes → Bytes
before_slash c [] = if c == b'/' then c ∷ [] else []
before_slash c (d ∷ rest) = c ∷ d ∷ rest

-- The text through its last slash.
through_slash : Bytes → Bytes
unfolding before_slash
through_slash [] = []
through_slash (c ∷ s) = before_slash c (through_slash s)

unfoldable pub dir : Bytes → Bytes
unfolding through_slash clean
dir s = clean (through_slash s)

clean_dots : clean (codes "/a//./b/../c/") ≡ codes "/a/c"
unfolding clean
clean_dots = refl

clean_up : clean (codes "../../x/..") ≡ codes "../.."
unfolding clean
clean_up = refl

dir_socket : dir (codes "/var/lib/nsm.sock") ≡ codes "/var/lib"
unfolding dir
dir_socket = refl

join_base : join_path (codes "/var/lib/") (codes "x/nsm.sock") ≡ codes "/var/lib/x/nsm.sock"
unfolding join_path
join_base = refl
