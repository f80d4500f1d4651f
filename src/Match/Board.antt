-- ===== src/Match/Board.antt =====
-- The scoreboard of server/src/MatchLifecycleSimulation.cpp, and its order.
use devy_fps.Prelude.{
  ℕ, Bool, List, [], ◌∷◌, Option, none, some, ltb, eqb, if◌then◌else◌, nat_eq, arith,
}
use devy_fps.Prelude.Int.{ltb_ℤ, eqb_ℤ}
use devy_fps.Prelude.Map.{Map, get}
use devy_fps.Prelude.Sort.{sort, IsStrictWeakOrder}
use devy_fps.Match.{MatchScoreEntry, PlayerRecord, Match}

unfoldable pub ranking_better : MatchScoreEntry → MatchScoreEntry → Bool
ranking_better a b =
    if eqb a.kills b.kills
    then (if eqb_ℤ a.coins b.coins
        then (if eqb a.deaths b.deaths then ltb a.player_id b.player_id else ltb a.deaths b.deaths)
        else ltb_ℤ b.coins a.coins)
    else ltb b.kills a.kills

unfoldable pub to_entry : PlayerRecord → MatchScoreEntry
to_entry r = record {
  player_id = r.player_id;
  kills = r.kills;
  deaths = r.deaths;
  coins = r.coins;
  respawns_remaining = r.respawns_remaining;
  alive = r.alive;
  eliminated = r.eliminated;
  connected = r.connected;
}

-- The entries of the players who have taken part, in the order of the table.
unfoldable pub participants : Map ℕ PlayerRecord → List MatchScoreEntry
unfolding to_entry
participants [] = []
participants ((id, r) ∷ players) =
    let rest = participants players in if r.participated then to_entry r ∷ rest else rest

unfoldable pub build_scoreboard : Match → List MatchScoreEntry
unfolding participants ranking_better
build_scoreboard m = sort ranking_better (participants m.players_by_id)

unfoldable pub resolve_winner_from_scoreboard : List MatchScoreEntry → Option ℕ
resolve_winner_from_scoreboard [] = none
resolve_winner_from_scoreboard (e ∷ es) = some e.player_id

abbrev pub entry_of : Option PlayerRecord → Option MatchScoreEntry
unfolding to_entry
entry_of none = none
entry_of (some r) = if r.participated then some (to_entry r) else none

unfoldable pub score_for : Match → ℕ → Option MatchScoreEntry
unfolding to_entry
score_for m player_id = entry_of (get m.players_by_id player_id)

unfoldable pub scoreboard_snapshot : Match → List MatchScoreEntry
unfolding build_scoreboard
scoreboard_snapshot m = build_scoreboard m

pub ranking_better-IsStrictWeakOrder : IsStrictWeakOrder ranking_better
unfolding ranking_better
ranking_better-IsStrictWeakOrder = record {
  asym = λ x y h. ground arith;
  not_lt_trans = λ x y z h g. ground arith;
}
