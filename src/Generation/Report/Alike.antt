-- ===== src/Generation/Report/Alike.antt =====
-- What the participants of a sync print of the state that they share (node/generation.py).
use mathlib.Core.Path.{fun_ext}
use ded_swarm.Base.{
  ℕ, ◌≡◌, refl, ap, sym, ◌∙◌, false, true, Bool, List, nat_eq, string_eq, map, String, Option, none,
  some, ok, >>=-eq-ok, each, arith,
}
use ded_swarm.Base.Dict.{lookup, keys, get_or, SameLookups}
use ded_swarm.Base.Order.{sorted, nat_ord}
use ded_swarm.Base.Ranges.{count}
use ded_swarm.Float.{Float, IsOrdered, IsExact}
use ded_swarm.Consensus.{Token, AllScores}
use ded_swarm.Generation.Parties.{Participant, Meeting, AllTakePart}
use ded_swarm.Generation.Parties.Logs.{takes_part, PhasesOf}
use ded_swarm.Generation.Parties.Everyone.{do_sync_everyone}
use ded_swarm.Generation.Report.{
  ReportArgs, SyncReport, DisputeLine, dispute_line, full_ids, committed_n, confirmed, frozen_note,
  report_with, sync_report,
}
use ded_swarm.Generation.Report.Whole.{report_args}

-- What a report shows of the shared state.
pub record Shown : Type 0 where
  pub confirmed : Option ℕ
  pub frozen_note : Option ℕ
  pub committed_n : ℕ
  pub span : ℕ
  pub preview : String

abbrev pub shown : {F : Type 0} → SyncReport F → Shown
shown r = record {
  confirmed = r.confirmed;
  frozen_note = r.frozen_note;
  committed_n = r.committed_n;
  span = r.span;
  preview = r.preview;
}

map_congr : {B : Type 0} (g h : ℕ → B) (xs : List ℕ) → ((x : ℕ) → g x ≡ h x) → map g xs ≡ map h xs
map_congr g h xs same = ap (λ k. map k xs) (fun_ext same)

count_congr : (g h : ℕ → Bool) (xs : List ℕ) → ((x : ℕ) → g x ≡ h x) → count g xs ≡ count h xs
count_congr g h xs same = ap (λ k. count k xs) (fun_ext same)

module _ {F : Type 0} (show : Token → String) (decode : List Token → String) (x y : ReportArgs F)
    (same_state : SameLookups x.shared_x y.shared_x)
    (same_boundary : x.new_frozen_from ≡ y.new_frozen_from)
    (same_old : x.frozen_from ≡ y.frozen_from) (same_start : x.gen_start ≡ y.gen_start)
    (same_end : x.gen_end ≡ y.gen_end) (same_mask : x.mask_id ≡ y.mask_id) where
  full_ids_congr : full_ids x ≡ full_ids y
  unfolding full_ids
  full_ids_congr =
      rw (same_start, same_end, same_mask)
        (map_congr _ _ _ (λ p. ap (λ o. get_or o y.mask_id) (same_state p)))

  committed_n_congr : committed_n x ≡ committed_n y
  unfolding committed_n
  committed_n_congr =
      rw (same_start, same_end)
        (count_congr _ _ _
          (λ p. ap (λ (o : Option Token). elim o [ none ↦ false | some _ ↦ true ]) (same_state p)))

  confirmed_congr : confirmed x ≡ confirmed y
  unfolding confirmed
  confirmed_congr = ground arith

  frozen_note_congr : frozen_note x ≡ frozen_note y
  unfolding frozen_note
  frozen_note_congr = ground arith

  shown_congr :
      (lines lines' : List (DisputeLine F))
      → shown (report_with show decode x lines) ≡ shown (report_with show decode y lines')
  unfolding report_with
  shown_congr lines lines' =
      cc (
        confirmed_congr, frozen_note_congr, full_ids_congr, committed_n_congr, same_start, same_end,
      )

module _ {F : Type 0} ⦃f : Float F⦄ (laws : IsOrdered F) (exact : IsExact F) (m : Meeting F)
    (all : AllTakePart m) (id other : String) (p q : Participant F)
    (there : lookup id m.participants ≡ some p) (there' : lookup other m.participants ≡ some q)
    (show : Token → String) (decode : List Token → String) (frozen_from : Option ℕ)
    (mask_id : ℕ) where
  -- What a participant has to print, with the phases of its sync and the scores that it gathered.
  abbrev pub args_of : (o : Participant F) → PhasesOf m all o → AllScores F → ReportArgs F
  args_of o ph gathered =
      report_args o.iter o.args o.shared_x m.detector o.started o.later o.ticks o.node o.result ph
        gathered frozen_from mask_id

  -- Any two of all the participants of a sync, as in `do_sync_everyone`, print the same of the state
  -- that they share, if they print their reports: the same text, with masks where the others have
  -- masks, the same count of committed positions, and the same boundary.
  pub sync_report_alike :
      (ph : PhasesOf m all p) (ph' : PhasesOf m all q) (scores scores' : AllScores F)
      (r r' : SyncReport F)
      → sync_report show decode (args_of p ph scores) ≡ ok r
      → sync_report show decode (args_of q ph' scores') ≡ ok r'
      → shown r ≡ shown r'
  unfolding sync_report
  sync_report_alike ph ph' scores scores' r r' run run' =
      let t = takes_part m all id p there in
      let t' = takes_part m all other q there' in
      let (state, same_detector) = do_sync_everyone laws exact m all id other p q there there' in
      let x = args_of p ph scores in
      let y = args_of q ph' scores' in
      let (lines, _, made) =
        >>=-eq-ok (each (dispute_line show decode x) (sorted (keys x.disputes)))
          (λ ls. ok (report_with show decode x ls)) run in
      let (lines', _, made') =
        >>=-eq-ok (each (dispute_line show decode y) (sorted (keys y.disputes)))
          (λ ls. ok (report_with show decode y ls)) run' in
      let left : report_with show decode x lines ≡ r = cc (made) in
      let right : report_with show decode y lines' ≡ r' = cc (made') in
      sym (ap shown left)
      ∙ shown_congr show decode x y state (ap (λ d. d.stop_pos) same_detector) refl
          (t.same_start ∙ sym t'.same_start) (t.same_end ∙ sym t'.same_end) refl lines lines'
      ∙ ap shown right
