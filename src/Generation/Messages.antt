-- ===== src/Generation/Messages.antt =====
-- The payloads of COMMIT and DISPUTE_SCORE (node/generation.py), written and read.
use ded_swarm.Base.{ℕ, ◌≡◌, refl, ap, ◌∙◌, [], ◌∷◌, map, nat_eq, All, ok, String}
use ded_swarm.Base.Dict.{Dict, insert, keys, NodupKeys}
use ded_swarm.Base.Refill.{insert_all, insert_all_self}
use ded_swarm.Base.Numerals.{int-str}
use ded_swarm.Consensus.{Token, Commit, Scores}
use ded_swarm.Generation.{
  commit_payload, zip_commit, read_commit, scores_payload, write_row, write_rows, read_row,
  read_rows, read_scores,
}

module _ {F : Type 0} where
  zip_commit-insert_all :
      (acc es : Commit F)
      → zip_commit acc (keys es) (map (λ e. e.1.0) es) (map (λ e. e.1.1) es) ≡ insert_all acc es
  unfolding zip_commit keys
  zip_commit-insert_all acc [] = refl
  zip_commit-insert_all acc ((p, (t, c)) ∷ es) = zip_commit-insert_all (insert p (t, c) acc) es

  -- A COMMIT reads back as the commits that its sender made, every position with its token and its
  -- confidence.
  pub read_commit-commit_payload :
      (round_id : String) (sync_seq : ℕ) (mine : Commit F)
      → NodupKeys mine
      → read_commit (commit_payload round_id sync_seq mine) ≡ ok mine
  unfolding read_commit commit_payload
  read_commit-commit_payload round_id sync_seq mine u =
      ap ok (zip_commit-insert_all [] mine ∙ insert_all_self mine u)

  read_row-insert_all :
      (acc es : Dict Token F) → read_row acc (write_row es) ≡ ok (insert_all acc es)
  unfolding read_row
  read_row-insert_all acc [] = refl
  read_row-insert_all acc ((t, x) ∷ es) = rw (int-str t) (read_row-insert_all (insert t x acc) es)

  -- The rows of a report, each with every candidate once.
  abbrev pub HasRows : Scores F → Type 0
  HasRows = All (λ e. NodupKeys e.1)

  read_rows-insert_all :
      (acc es : Scores F) → HasRows es → read_rows acc (write_rows es) ≡ ok (insert_all acc es)
  unfolding read_rows
  read_rows-insert_all acc [] h = refl
  read_rows-insert_all acc ((pos, row) ∷ es) (u, us) =
      rw (int-str pos, read_row-insert_all [] row, insert_all_self row u)
        (read_rows-insert_all (insert pos row acc) es us)

  -- A DISPUTE_SCORE reads back as the scores that its sender gave, although its keys travel as
  -- texts.
  pub read_scores-scores_payload :
      (round_id : String) (sync_seq : ℕ) (mine : Scores F)
      → NodupKeys mine
      → HasRows mine
      → read_scores (scores_payload round_id sync_seq mine) ≡ ok mine
  unfolding read_scores scores_payload
  read_scores-scores_payload round_id sync_seq mine u us =
      read_rows-insert_all [] mine us ∙ ap ok (insert_all_self mine u)
