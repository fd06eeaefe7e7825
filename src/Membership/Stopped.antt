-- ===== src/Membership/Stopped.antt =====
-- How `run` (node/node.py) ends: SIGTERM, and the BYE.
use ded_swarm.Base.{◌≡◌, refl, ap, Bool, true, false, List, [], ◌∷◌, ◌++◌, map, All, string_eq}
use ded_swarm.Float.{Float}
use ded_swarm.Protocol.{hello, bye}
use ded_swarm.Membership.{Node, Turn, run_turns, beats, run, turns_made}

module _ {F : Type 0} where
  -- Until SIGTERM arrives every turn is made; the turn in which it arrives is the last.
  pub turns_made-append :
      (before after : List (Turn F × Bool)) (t : Turn F)
      → All (λ e. e.1 ≡ false) before
      → turns_made true (before ++ ((t, true) ∷ after)) ≡ map (λ e. e.0) before ++ (t ∷ [])
  unfolding turns_made
  turns_made-append [] after t quiet = refl
  turns_made-append ((u, s) ∷ before) after t (q, quiet) =
      rw q (ap (λ ts. u ∷ ts) (turns_made-append before after t quiet))

module _ {F : Type 0} ⦃f : Float F⦄ where
  -- What a node that is stopped by SIGTERM has published: HELLO, the heartbeats of the turns up to
  -- and with the one in which the signal arrives, and BYE.
  pub run-turns_made :
      (n : Node F) (before after : List (Turn F × Bool)) (t : Turn F)
      → All (λ e. e.1 ≡ false) before
      → run n (turns_made true (before ++ ((t, true) ∷ after)))
        ≡ hello ∷ (beats (run_turns n (map (λ e. e.0) before ++ (t ∷ []))).1 ++ (bye ∷ []))
  unfolding run
  run-turns_made n before after t quiet =
      ap (λ ts. hello ∷ (beats (run_turns n ts).1 ++ (bye ∷ [])))
        (turns_made-append before after t quiet)
