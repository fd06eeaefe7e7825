-- ===== src/Generation/Parties/Gathered.antt =====
-- Every participant of a sync gathers the same commits, in an order of its own, and so finds
-- disputes if any other does.
use ded_swarm.Base.{◌≡◌, refl, sym, ◌∙◌, [], ◌∷◌, nat_eq, string_eq, String, none, some}
use ded_swarm.Base.Dict.{lookup, NodupKeys}
use ded_swarm.Base.Every.{All-map}
use ded_swarm.Base.Perms.{SameLookups-perm}
use ded_swarm.Base.Refill.{for_each-filled}
use ded_swarm.Float.{Float}
use ded_swarm.Protocol.{commit}
use ded_swarm.Consensus.{detect_disputes}
use ded_swarm.Consensus.Merge.{SameProposals}
use ded_swarm.Consensus.Calm.{perm-SameProposals, no_disputes_congr}
use ded_swarm.Generation.{add_commit}
use ded_swarm.Generation.Parties.{Participant, Meeting, Published, AllTakePart}
use ded_swarm.Generation.Parties.Logs.{
  takes_part, phases, committed, IsRead, reads_commit, add_commit-IsRead, heard, everyone_heard,
}

module _ {F : Type 0} ⦃f : Float F⦄ (m : Meeting F) (all : AllTakePart m) where
  gathered :
      (id : String) (p : Participant F) (there : lookup id m.participants ≡ some p)
      → let log = (phases m all id p there).log in
        NodupKeys log
        × ((s : String)
            → lookup s log
              ≡ elim (lookup s m.participants) [ none ↦ none | some _ ↦ some (committed m all s) ])
  unfolding lookup
  gathered id p there =
      let t = takes_part m all id p there in
      let ph = phases m all id p there in
      let (sent, who, _, _, _) =
        heard m all id p there commit p.started p.ticks p.node ph.c t.inbox t.filed_genuine t.timely
          (λ tick timely. timely.0) ph.collects in
      let (nodup, at) =
        for_each-filled add_commit (committed m all) (IsRead m all) (add_commit-IsRead m all)
          ph.c.received ((p.args.id, p.args.my_commits) ∷ []) ph.log
          (All-map (λ e. Published (lookup e.0 m.participants) (commit, e.1)) (IsRead m all)
            ph.c.received (λ e. reads_commit m all e.0 e.1) sent)
          (refl, tt) ph.reads in
      (
        nodup,
        λ s.
            at s
            ∙ everyone_heard m all id p there ph.c.received (committed m all) p.args.my_commits s
                (who s) (rw there refl),
      )

  module _ (id other : String) (p q : Participant F) (there : lookup id m.participants ≡ some p)
      (there' : lookup other m.participants ≡ some q) where
    pub same_proposals :
        SameProposals (phases m all id p there).log (phases m all other q there').log
    same_proposals =
        let (nodup, at) = gathered id p there in
        let (nodup', at') = gathered other q there' in
        perm-SameProposals (phases m all id p there).log (phases m all other q there').log (
          SameLookups-perm (phases m all id p there).log (phases m all other q there').log nodup
            nodup' (λ s. at s ∙ sym (at' s)))

    -- If one of them finds nothing in dispute, the other does not.
    pub calm_together :
        detect_disputes (phases m all id p there).log ≡ []
        → detect_disputes (phases m all other q there').log ≡ []
    calm_together =
        no_disputes_congr (phases m all id p there).log (phases m all other q there').log
          same_proposals
