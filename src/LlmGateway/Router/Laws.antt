-- ===== src/LlmGateway/Router/Laws.antt =====
-- A chain holds its candidates in their order (router.py).
use mathlib.Core.List.{reverse, reverse-reverse, reverse-append, append_assoc}
use ai_os.Prelude.{◌≡◌, refl, some, List, [], ◌∷◌, ◌++◌, String, ap, ◌∙◌, sym}
use ai_os.LlmGateway.Router.{
  RoutingDecision, single, chain, last, all_but_last, chain_loop, build_routing_chain,
}

-- The candidates of a decision, the primary first.
unfoldable pub candidates : RoutingDecision → List (String × String)
candidates (single p m) = (p, m) ∷ []
candidates (chain p m rest) = (p, m) ∷ candidates rest

candidates-chain_loop :
    (cs : List (String × String)) (d : RoutingDecision)
    → candidates (chain_loop cs d) ≡ reverse cs ++ candidates d
unfolding candidates chain_loop
candidates-chain_loop [] d = refl
candidates-chain_loop ((p, m) ∷ cs) d =
    candidates-chain_loop cs (chain p m d)
    ∙ sym (
        ap (λ l. l ++ candidates d) (reverse-append ((p, m) ∷ []) cs)
        ∙ append_assoc (reverse cs) ((p, m) ∷ []) (candidates d))

all_but_last-append-last :
    (first : String × String) (rest : List (String × String))
    → all_but_last first rest ++ last first rest ∷ [] ≡ first ∷ rest
unfolding all_but_last last
all_but_last-append-last first [] = refl
all_but_last-append-last first (second ∷ rest) =
    ap (λ l. first ∷ l) (all_but_last-append-last second rest)

-- Every non-empty sequence of candidates gives a chain, and the chain holds exactly these, in
-- this order.
build_routing_chain-candidates :
    (first : String × String) (rest : List (String × String))
    → (d : RoutingDecision) × (build_routing_chain (first ∷ rest) ≡ some d)
      × (candidates d ≡ first ∷ rest)
unfolding build_routing_chain candidates
build_routing_chain-candidates first rest = (
  chain_loop (reverse (all_but_last first rest)) (single (last first rest).0 (last first rest).1),
  refl,
  candidates-chain_loop (reverse (all_but_last first rest)) _
      ∙ rw reverse-reverse (all_but_last-append-last first rest),
)
