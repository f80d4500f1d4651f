-- ===== src/Match/Ranking.antt =====
-- The scoreboard of server/src/MatchLifecycleSimulation.cpp after any calls: who is on it, with what
-- score, and in which order.
use devy_fps.Prelude.{
  ℕ, ◌<◌, ◌≡◌, ◌∙◌, inl, inr, refl, sym, Bool, true, false, List, [], ◌∷◌, Option, none, some, ltb,
  eqb, if◌then◌else◌, nat_eq, arith, Bool-cases, eqb_refl, eqb_iff, All,
}
use devy_fps.Prelude.Int.{ltb_ℤ, eq_of_parts}
use devy_fps.Prelude.Map.{Map, get, Distinct, Every}
use devy_fps.Prelude.Sort.{insert, sort, SortedBy, sort-SortedBy}
use devy_fps.Match.{MatchScoreEntry, MatchLifecycleConfig, PlayerRecord, new}
use devy_fps.Match.Board.{
  ranking_better, to_entry, participants, build_scoreboard, scoreboard_snapshot,
  ranking_better-IsStrictWeakOrder,
}
use devy_fps.Match.History.{Call, run, players_stay_sound}

-- The order of the scoreboard: more kills, then more coins, then fewer deaths, then the smaller id.
pub data Outranks (a b : MatchScoreEntry) : Type 0 where
  more_kills : b.kills < a.kills → Outranks a b
  more_coins : a.kills ≡ b.kills → ltb_ℤ b.coins a.coins ≡ true → Outranks a b
  fewer_deaths : a.kills ≡ b.kills → a.coins ≡ b.coins → a.deaths < b.deaths → Outranks a b
  smaller_id :
      a.kills ≡ b.kills
      → a.coins ≡ b.coins
      → a.deaths ≡ b.deaths
      → a.player_id < b.player_id
      → Outranks a b

-- Each entry outranks every later one.
abbrev pub Ranked : List MatchScoreEntry → Type 0
Ranked [] = Unit {0}
Ranked (e ∷ es) = All (Outranks e) es × Ranked es

-- The entries of one player.
unfoldable pub entries_of : ℕ → List MatchScoreEntry → List MatchScoreEntry
entries_of p [] = []
entries_of p (e ∷ es) = let rest = entries_of p es in if eqb e.player_id p then e ∷ rest else rest

-- A player's entries by the table: one with the record's score if the player has taken part.
abbrev pub due_entries : ℕ → Option PlayerRecord → List MatchScoreEntry
due_entries p none = []
due_entries p (some r) =
    if r.participated
    then record {
      player_id = p;
      kills = r.kills;
      deaths = r.deaths;
      coins = r.coins;
      respawns_remaining = r.respawns_remaining;
      alive = r.alive;
      eliminated = r.eliminated;
      connected = r.connected;
    }
      ∷ []
    else []

ranking_better-Outranks :
    (a b : MatchScoreEntry)
    → ranking_better b a ≡ false
    → eqb a.player_id b.player_id ≡ false
    → Outranks a b
unfolding ranking_better
ranking_better-Outranks a b h e = elim (Bool-cases (ltb b.kills a.kills)) [
  | inl kills ↦ more_kills (ground arith)
  | inr kills ↦
      let same_kills : a.kills ≡ b.kills = ground (arith, h, kills) in
      elim (Bool-cases (ltb_ℤ b.coins a.coins)) [
        | inl coins ↦ more_coins same_kills coins
        | inr coins ↦
            let same_coins : a.coins ≡ b.coins =
              eq_of_parts a.coins b.coins (ground (arith, h, same_kills, coins)) in
            elim (Bool-cases (ltb a.deaths b.deaths)) [
              | inl deaths ↦ fewer_deaths same_kills same_coins (ground arith)
              | inr deaths ↦
                  smaller_id same_kills same_coins
                    (ground (arith, h, same_kills, same_coins, deaths))
                    (ground (arith, h, e, same_kills, same_coins, deaths))
            ]
      ]
]

-- A player's entry goes in where there was none, and another's changes nothing.
entries_of-insert :
    (lt : MatchScoreEntry → MatchScoreEntry → Bool) (p : ℕ) (e : MatchScoreEntry)
    (es : List MatchScoreEntry)
    → (eqb e.player_id p ≡ true → entries_of p es ≡ [])
    → entries_of p (insert lt e es) ≡ (if eqb e.player_id p then e ∷ [] else entries_of p es)
unfolding insert entries_of
entries_of-insert lt p e [] h = refl
entries_of-insert lt p e (x ∷ es) h = ground (arith, entries_of-insert lt p e es, h)

-- Every record stands under its own id.
abbrev Filed : Map ℕ PlayerRecord → Type 0
Filed = Every (λ id r. r.player_id ≡ id)

Filed-tail :
    (id : ℕ) (r : PlayerRecord) (players : Map ℕ PlayerRecord)
    → Distinct ((id, r) ∷ players)
    → Filed ((id, r) ∷ players)
    → (r.player_id ≡ id) × Filed players
unfolding get
Filed-tail id r players d filed = (
  filed id r (rw (eqb_refl id) refl),
  λ j s found. filed j s (ground (arith, found, d.0, eqb_iff id j)),
)

entries_of-sort :
    (p : ℕ) (players : Map ℕ PlayerRecord)
    → Distinct players
    → Filed players
    → entries_of p (sort ranking_better (participants players)) ≡ due_entries p (get players p)
unfolding participants sort get entries_of to_entry
entries_of-sort p [] d filed = refl
entries_of-sort p ((id, r) ∷ players) d filed =
    let (own, rest) = Filed-tail id r players d filed in
    let tail = entries_of-sort p players d.1 rest in
    let gone : eqb (to_entry r).player_id p ≡ true
        → entries_of p (sort ranking_better (participants players)) ≡ [] =
      λ same. tail ∙ ground (arith, d.0, own, same, eqb_iff id p) in
    let added =
      entries_of-insert ranking_better p (to_entry r) (sort ranking_better (participants players))
        gone in
    elim (Bool-cases r.participated) [
      | inl e ↦ rw e (added ∙ ground (arith, own, tail, e, eqb_iff id p))
      | inr e ↦ rw e (tail ∙ ground (arith, own, d.0, e, eqb_iff id p))
    ]

at_most_one :
    (p : ℕ) (o : Option PlayerRecord) (e : MatchScoreEntry) (es : List MatchScoreEntry)
    → due_entries p o ≡ e ∷ es
    → es ≡ []
at_most_one p o e es h = ground (arith, h)

-- No player has two entries.
abbrev Single : List MatchScoreEntry → Type 0
Single es =
    (p : ℕ) (e : MatchScoreEntry) (rest : List MatchScoreEntry)
    → entries_of p es ≡ e ∷ rest
    → rest ≡ []

Single-tail : (e : MatchScoreEntry) (es : List MatchScoreEntry) → Single (e ∷ es) → Single es
unfolding entries_of
Single-tail e es single p x rest h = elim (Bool-cases (eqb e.player_id p)) [
  | inl same ↦ absurd ground (arith, single p e (entries_of p es) (rw same refl), h)
  | inr other ↦ single p x rest (rw other h)
]

All-Outranks :
    (e : MatchScoreEntry) (es : List MatchScoreEntry)
    → entries_of e.player_id es ≡ []
    → All (λ y. ranking_better y e ≡ false) es
    → All (Outranks e) es
unfolding entries_of
All-Outranks e [] h s = tt
All-Outranks e (x ∷ es) h s = elim (Bool-cases (eqb x.player_id e.player_id)) [
  | inl same ↦ absurd ground (arith, h, same)
  | inr other ↦ (
    ranking_better-Outranks e x s.0 (ground (arith, other)),
    All-Outranks e es (ground (arith, h, other)) s.1,
  )
]

Ranked-SortedBy : (es : List MatchScoreEntry) → Single es → SortedBy ranking_better es → Ranked es
unfolding entries_of
Ranked-SortedBy [] single s = tt
Ranked-SortedBy (e ∷ es) single s = (
  All-Outranks e es
      (single e.player_id e (entries_of e.player_id es) (rw (eqb_refl e.player_id) refl)) s.0,
  Ranked-SortedBy es (Single-tail e es single) s.1,
)

-- After any calls on a new match, the scoreboard has one entry for each player who has a record and
-- has taken part, with that record's score, and none for anyone else; and each entry outranks every
-- later one by more kills, or as many and more coins, or as many of both and fewer deaths, or as
-- many of all three and the smaller id.
pub scoreboard_ranks :
    (config : MatchLifecycleConfig) (calls : List Call)
    → let m = run (new config) calls in
      Ranked (scoreboard_snapshot m)
      × ((p : ℕ) → entries_of p (scoreboard_snapshot m) ≡ due_entries p (get m.players_by_id p))
unfolding scoreboard_snapshot build_scoreboard
scoreboard_ranks config calls =
    let m = run (new config) calls in
    let valid = players_stay_sound config calls in
    let listed = λ (p : ℕ).
      entries_of-sort p m.players_by_id valid.distinct
        (λ id r found. (valid.sound id r found).filed) in
    (
      Ranked-SortedBy (scoreboard_snapshot m)
          (λ p e rest h. at_most_one p (get m.players_by_id p) e rest (sym (listed p) ∙ h))
          (sort-SortedBy ranking_better ranking_better-IsStrictWeakOrder
            (participants m.players_by_id)),
      listed,
    )
