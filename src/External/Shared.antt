-- ===== src/External/Shared.antt =====
-- One configuration client of the agent, with the requests of several senders.
use cnf_nsm.Common.{◌≡◌, refl, sym, ap, ◌∙◌, List, [], ◌∷◌, Bytes, arith, if◌then◌else◌}
use cnf_nsm.External.{
  InterfaceKind, InterfaceConfig, ChangeRequest, update, delete, configured, names_one,
}

abbrev pub requested : ChangeRequest → List InterfaceConfig
requested (update cs) = cs
requested (delete cs) = cs

-- The requests about an interface of a kind and a name, in their order.
unfoldable pub about : InterfaceKind → Bytes → List ChangeRequest → List ChangeRequest
about k n [] = []
about k n (r ∷ rs) =
    let rest = about k n rs in if names_one k (requested r) n then r ∷ rest else rest

-- Whether an interface is configured depends on the requests about it only.
configured-about :
    (k : InterfaceKind) (n : Bytes) (rs : List ChangeRequest)
    → configured k (about k n rs) n ≡ configured k rs n
unfolding about configured
configured-about k n [] = refl
configured-about k n (update cs ∷ rs) = ground (arith, configured-about k n rs)
configured-about k n (delete cs ∷ rs) = ground (arith, configured-about k n rs)

pub configured-same :
    (k : InterfaceKind) (n : Bytes) (rs sent : List ChangeRequest)
    → about k n rs ≡ about k n sent
    → configured k rs n ≡ configured k sent n
configured-same k n rs sent same =
    sym (configured-about k n rs) ∙ ap (λ l. configured k l n) same ∙ configured-about k n sent
