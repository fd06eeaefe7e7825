-- ===== src/Consensus/Proposals.antt =====
-- The loops that gather the proposals of all participants, against the commits themselves.
use ded_swarm.Base.{
  ◌≡◌, ◌≢◌, refl, Bool, ◌&&◌, ◌||◌, [], ◌∷◌, ◌==◌, nat_eq, foldl, some, set_add, any, IsSetList,
  contains, contains-set_add, set_add-IsSetList, arith,
}
use ded_swarm.Base.Dict.{Dict, lookup, get_or, NodupKeys, lookup-insert, insert-NodupKeys}
use ded_swarm.Consensus.{Position, Token, TokenSet, Commit, Commits, propose, by_position}

abbrev pub tokens_at : Position → Dict Position TokenSet → TokenSet
tokens_at pos acc = get_or (lookup pos acc) []

-- What the gathered sets are at every moment: one entry for a position, no token twice, no empty
-- set.
pub record IsGathered (acc : Dict Position TokenSet) : Type 0 where
  pub nodup : NodupKeys acc
  pub sets : (pos : Position) → IsSetList (tokens_at pos acc)
  pub nonempty : (pos : Position) → lookup pos acc ≢ some []

set_add-ne-nil : (t : Token) (ts : TokenSet) → set_add t ts ≢ []
unfolding set_add
set_add-ne-nil t [] h = ground arith
set_add-ne-nil t (u ∷ ts) h = ground arith

module _ {F : Type 0} where
  -- An entry of a commit that names this token at this position.
  abbrev pub names : Position → Token → Position × (Token × F) → Bool
  names pos t (p, (u, _)) = pos == p && t == u

  -- Some participant proposes the token at the position.
  abbrev pub proposes : Commits F → Position → Token → Bool
  proposes commits pos t = any (λ e. any (names pos t) e.1) commits

  contains-propose :
      (acc : Dict Position TokenSet) (e : Position × (Token × F)) (pos : Position) (t : Token)
      → contains (tokens_at pos (propose acc e)) t
        ≡ (names pos t e || contains (tokens_at pos acc) t)
  unfolding propose
  contains-propose acc (p, (u, c)) pos t =
      let old = tokens_at p acc in
      ground (arith, lookup-insert pos p (set_add u old) acc, contains-set_add u t old)

  propose-IsGathered :
      (acc : Dict Position TokenSet) (e : Position × (Token × F))
      → IsGathered acc
      → IsGathered (propose acc e)
  unfolding propose
  propose-IsGathered acc (p, (u, c)) g =
      let old = tokens_at p acc in
      record {
        nodup = insert-NodupKeys p (set_add u old) acc g.nodup;
        sets = λ pos. ground (
          arith,
          lookup-insert pos p (set_add u old) acc,
          g.sets pos,
          set_add-IsSetList u old (g.sets p),
        );
        nonempty = λ pos h.
            ground (
              arith,
              lookup-insert pos p (set_add u old) acc,
              g.nonempty pos,
              set_add-ne-nil u old,
            );
      }

  contains-propose_all :
      (es : Commit F) (acc : Dict Position TokenSet) (pos : Position) (t : Token)
      → contains (tokens_at pos (foldl propose acc es)) t
        ≡ (any (names pos t) es || contains (tokens_at pos acc) t)
  contains-propose_all [] acc pos t = refl
  contains-propose_all (e ∷ es) acc pos t =
      ground (arith, contains-propose_all es (propose acc e) pos t, contains-propose acc e pos t)

  propose_all-IsGathered :
      (es : Commit F) (acc : Dict Position TokenSet)
      → IsGathered acc
      → IsGathered (foldl propose acc es)
  propose_all-IsGathered [] acc g = g
  propose_all-IsGathered (e ∷ es) acc g =
      propose_all-IsGathered es (propose acc e) (propose-IsGathered acc e g)

  abbrev gather : Dict Position TokenSet → Commits F → Dict Position TokenSet
  gather = foldl (λ acc e. foldl propose acc e.1)

  contains-gather :
      (commits : Commits F) (acc : Dict Position TokenSet) (pos : Position) (t : Token)
      → contains (tokens_at pos (gather acc commits)) t
        ≡ (proposes commits pos t || contains (tokens_at pos acc) t)
  contains-gather [] acc pos t = refl
  contains-gather (e ∷ es) acc pos t =
      ground (
        arith,
        contains-gather es (foldl propose acc e.1) pos t,
        contains-propose_all e.1 acc pos t,
      )

  gather-IsGathered :
      (commits : Commits F) (acc : Dict Position TokenSet)
      → IsGathered acc
      → IsGathered (gather acc commits)
  gather-IsGathered [] acc g = g
  gather-IsGathered (e ∷ es) acc g =
      gather-IsGathered es (foldl propose acc e.1) (propose_all-IsGathered e.1 acc g)

  pub by_position-IsGathered : (commits : Commits F) → IsGathered (by_position commits)
  unfolding by_position lookup
  by_position-IsGathered commits =
      gather-IsGathered commits [] (record { nodup = tt; sets = λ pos. tt; nonempty = λ pos h. cc })

  -- The set gathered at a position holds exactly the tokens that are proposed there.
  pub contains-by_position :
      (commits : Commits F) (pos : Position) (t : Token)
      → contains (tokens_at pos (by_position commits)) t ≡ proposes commits pos t
  unfolding by_position lookup
  contains-by_position commits pos t = ground (arith, contains-gather commits [] pos t)
