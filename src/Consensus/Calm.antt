-- ===== src/Consensus/Calm.antt =====
-- Logs of commits (diffusion/consensus.py) that hold the same proposals, whatever their order.
use mathlib.Core.List.{Permᴰ}
use ded_swarm.Base.{
  ◌≡◌, ◌⊎◌, inl, inr, refl, ◌∙◌, ap, Bool, List, [], nat_eq, string_eq, any, none, some, arith,
  Option-cases,
}
use ded_swarm.Base.Dict.{lookup}
use ded_swarm.Base.Perms.{empty-lookups}
use ded_swarm.Consensus.{Position, TokenSet, Commits, detect_disputes}
use ded_swarm.Consensus.Disputes.{detect_disputes_iff}
use ded_swarm.Consensus.Merge.{Covers, SameProposals}

any_perm {ℓ} : {A : Type ℓ} (f : A → Bool) {xs ys : List A} → Permᴰ xs ys → any f xs ≡ any f ys
any_perm f Permᴰ.nil = refl
any_perm f (Permᴰ.cons {a = a} {b = b} e h) = rw (e, any_perm f h) refl
any_perm f (Permᴰ.swap {a = a} {b = b} {a' = a'} {b' = b'} {l = l} e e') = rw (e, e') (ground arith)
any_perm f (Permᴰ.trans h k) = any_perm f h ∙ any_perm f k

module _ {F : Type 0} where
  pub perm-SameProposals : (c d : Commits F) → Permᴰ c d → SameProposals c d
  perm-SameProposals c d p pos t = any_perm _ p

  -- A log in which nothing is disputed is covered by no resolution at all.
  pub calm-Covers : (c : Commits F) → detect_disputes c ≡ [] → Covers [] c
  unfolding lookup
  calm-Covers c calm pos contested miss =
      (detect_disputes_iff c pos).1 contested (ap (lookup pos) calm)

  -- Where nothing is disputed in one, nothing is in the other.
  pub no_disputes_congr :
      (c d : Commits F) → SameProposals c d → detect_disputes c ≡ [] → detect_disputes d ≡ []
  unfolding lookup
  no_disputes_congr c d same calm =
      empty-lookups (detect_disputes d)
        (λ pos. go pos (Option-cases (lookup pos (detect_disputes d))))
    where
      go :
          (pos : Position)
          → (lookup pos (detect_disputes d) ≡ none)
            ⊎ ((ts : TokenSet) × (lookup pos (detect_disputes d) ≡ some ts))
          → lookup pos (detect_disputes d) ≡ none
      go pos (inl e) = e
      go pos (inr (ts, e)) =
          let (t, v, differ, h, k) = (detect_disputes_iff d pos).0 (λ miss. cc) in
          absurd (calm-Covers c calm pos (t, v, differ, same pos t ∙ h, same pos v ∙ k) refl)
