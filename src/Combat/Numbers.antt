-- ===== src/Combat/Numbers.antt =====
-- The numbers of the shots that `CombatSimulation::enqueue_fire` takes.
use devy_fps.Prelude.{
  ℕ, ◌≤◌, ◌≡◌, ◌⊎◌, ◌∙◌, inl, inr, refl, ap, true, false, ◌||◌, List, [], ◌∷◌, ◌++◌, Option, none,
  some, eqb, if◌then◌else◌, last?, nat_eq, arith, Bool-cases, Option-cases,
}
use devy_fps.Prelude.{not, bytes_eq}
use devy_fps.Prelude.Floats.{Floats, Doubles}
use devy_fps.Prelude.Map.{Map, get, put, get-put, erase, get-erase}
use devy_fps.Prelude.Ids.{contains}
use devy_fps.Prelude.Queues.{Queues, queue, or_empty, queue_ids}
use devy_fps.Prelude.Queues.Drain.{drain, get-drain_ids}
use devy_fps.Combat.{
  WeaponDefinition, CombatConfig, FireCommand, FireEnqueueStatus, unknown_weapon, fire_out_of_order,
  fire_accepted, Combat, lowercase, last_seq, is_behind, new, reset, ensure_player, remove_player,
  revive, respawn_player, accept_fire, enqueue_fire, set_player_position,
}
use devy_fps.Combat.Resolve.{note_shot}
use devy_fps.Combat.Keeps.{Keeps, resolve_tick-keeps}
use devy_fps.Combat.History.{
  Call, reset_call, ensure_call, remove_call, respawn_call, position_call, fire_call, tick_call,
  call, run,
}

-- The queue's back is the last shot that was taken, or an older one.
abbrev IsBehindLast : Option ℕ → Option ℕ → Type 0
IsBehindLast none last = Unit
IsBehindLast (some back) none = true ≡ false
IsBehindLast (some back) (some last) = back ≤ last

abbrev IsBacked : {F : Type 0} → Queues (FireCommand F) → Map ℕ ℕ → Type 0
IsBacked queues last = (p : ℕ) → IsBehindLast (last_seq (last? (queue queues p))) (get last p)

abbrev Backed : {F : Type 0} → Combat F → Type 0
Backed c = IsBacked c.fire_queue_by_player c.last_shot_seq_by_player

back_decides_nothing :
    (back last : Option ℕ) (seq : ℕ)
    → IsBehindLast back last
    → is_behind last seq ≡ false
    → is_behind back seq ≡ false
back_decides_nothing none last seq h e = refl
back_decides_nothing (some back) none seq h e = absurd ground (arith, h)
back_decides_nothing (some back) (some last) seq h e = ground (arith, h, e)

module _ {F : Type 0} where
  last-append : (q : List (FireCommand F)) (x : FireCommand F) → last? (q ++ x ∷ []) ≡ some x
  last-append [] x = refl
  last-append (y ∷ []) x = refl
  last-append (y ∷ z ∷ q) x = last-append (z ∷ q) x

  -- A player's queue as it was, or emptied.
  thinned-Backed :
      (queues after : Queues (FireCommand F)) (last : Map ℕ ℕ)
      → ((p : ℕ) → (queue after p ≡ queue queues p) ⊎ (queue after p ≡ []))
      → IsBacked queues last
      → IsBacked after last
  thinned-Backed queues after last h b p = elim (h p) [ inl e ↦ rw e (b p) | inr e ↦ rw e tt ]

  put-Backed :
      (queues : Queues (FireCommand F)) (last : Map ℕ ℕ) (p n : ℕ) (q : List (FireCommand F))
      → last_seq (last? q) ≡ some n
      → IsBacked queues last
      → IsBacked (put queues p q) (put last p n)
  put-Backed queues last p n q h b k = elim (Bool-cases (eqb p k)) [
    | inl e ↦ rw (get-put queues p k q, get-put last p k n, e, h) (omega arith)
    | inr e ↦ rw (get-put queues p k q, get-put last p k n, e) (b k)
  ]

  erase-Backed :
      (queues : Queues (FireCommand F)) (last : Map ℕ ℕ) (p : ℕ)
      → IsBacked queues last
      → IsBacked (erase queues p) (erase last p)
  erase-Backed queues last p b k = elim (Bool-cases (eqb p k)) [
    | inl e ↦ rw (get-erase queues p k, get-erase last p k, e) tt
    | inr e ↦ rw (get-erase queues p k, get-erase last p k, e) (b k)
  ]

  drained-Backed :
      (queues : Queues (FireCommand F)) (last : Map ℕ ℕ)
      → IsBacked queues last
      → IsBacked (drain (λ n. n) queues 0).queues last
  unfolding drain
  drained-Backed queues last b =
      let found = get-drain_ids (λ n. n) (queue_ids queues) queues [] 0 in
      thinned-Backed queues (drain (λ n. n) queues 0).queues last
        (λ p. elim (Bool-cases (contains (queue_ids queues) p)) [
          | inl e ↦
              inr (ap or_empty (found p) ∙ ap (λ o. or_empty (if o then none else get queues p)) e)
          | inr e ↦
              inl (ap or_empty (found p) ∙ ap (λ o. or_empty (if o then none else get queues p)) e)
        ])
        b

  ensure_player-Backed : (c : Combat F) (id : ℕ) → Backed c → Backed (ensure_player c id)
  unfolding ensure_player
  ensure_player-Backed c id b = elim (Option-cases (get c.players_by_id id)) [
    | inl e ↦ rw (ensure_player, e) b
    | inr (s, e) ↦ rw (ensure_player, e) b
  ]

  respawn_player-Backed : (c : Combat F) (id : ℕ) → Backed c → Backed (respawn_player c id)
  unfolding respawn_player revive
  respawn_player-Backed c id b = elim (Option-cases (get (ensure_player c id).players_by_id id)) [
    | inl e ↦ rw (revive, e) (ensure_player-Backed c id b)
    | inr (s, e) ↦ rw (revive, e) (ensure_player-Backed c id b)
  ]

  accept_fire-Backed :
      (c : Combat F) (fire : FireCommand F) → Backed c → Backed (accept_fire c fire)
  unfolding accept_fire
  accept_fire-Backed c fire b =
      let x : FireCommand F = record fire { weapon_id = lowercase fire.weapon_id } in
      let q = queue c.fire_queue_by_player fire.attacker_id ++ x ∷ [] in
      ensure_player-Backed
        (record c {
          fire_queue_by_player = put c.fire_queue_by_player fire.attacker_id q;
          last_shot_seq_by_player = put c.last_shot_seq_by_player fire.attacker_id fire.shot_seq;
        })
        fire.attacker_id
        (put-Backed c.fire_queue_by_player c.last_shot_seq_by_player fire.attacker_id fire.shot_seq
          q (ap last_seq (last-append (queue c.fire_queue_by_player fire.attacker_id) x)) b)

  -- The decision by the number of the last shot that was taken, and by nothing else.
  abbrev pub take_by_number : Combat F → FireCommand F → Combat F × FireEnqueueStatus
  take_by_number c fire = elim (get c.weapons_by_id (lowercase fire.weapon_id)) [
    | none ↦ (c, unknown_weapon)
    | some w ↦
        if is_behind (get c.last_shot_seq_by_player fire.attacker_id) fire.shot_seq
        then (c, fire_out_of_order)
        else (accept_fire c fire, fire_accepted)
  ]

  enqueue_fire-Backed :
      (c : Combat F) (fire : FireCommand F) → Backed c → enqueue_fire c fire ≡ take_by_number c fire
  unfolding enqueue_fire
  enqueue_fire-Backed c fire b =
      elim (Option-cases (get c.weapons_by_id (lowercase fire.weapon_id))) [
        | inl e ↦ rw (enqueue_fire, take_by_number, e) refl
        | inr (w, e) ↦
            elim (Bool-cases
              (is_behind (get c.last_shot_seq_by_player fire.attacker_id) fire.shot_seq)) [
                | inl g ↦ rw (enqueue_fire, take_by_number, e, g) refl
                | inr g ↦
                    rw
                      (
                        enqueue_fire,
                        take_by_number,
                        e,
                        g,
                        back_decides_nothing
                            (last_seq (last? (queue c.fire_queue_by_player fire.attacker_id)))
                            (get c.last_shot_seq_by_player fire.attacker_id) fire.shot_seq
                            (b fire.attacker_id) g,
                      )
                      refl
              ]
      ]

  enqueued-Backed :
      (c : Combat F) (fire : FireCommand F) → Backed c → Backed (enqueue_fire c fire).0
  enqueued-Backed c fire b =
      rw (enqueue_fire-Backed c fire b)
        (elim (Option-cases (get c.weapons_by_id (lowercase fire.weapon_id))) [
          | inl e ↦ rw (take_by_number, e) b
          | inr (w, e) ↦
              elim (Bool-cases
                (is_behind (get c.last_shot_seq_by_player fire.attacker_id) fire.shot_seq)) [
                  | inl g ↦ rw (take_by_number, e, g) b
                  | inr g ↦ rw (take_by_number, e, g) (accept_fire-Backed c fire b)
                ]
        ])

  Backed-Keeps : (tick : ℕ) → Keeps {F = F} tick (λ c out. Backed c)
  unfolding note_shot
  Backed-Keeps tick = record {
    damage = λ hit s c out e a b v. v;
    pending = λ hits c out v. v;
    queues = λ c out v. drained-Backed c.fire_queue_by_player c.last_shot_seq_by_player v;
    shot = λ fire s next_tick c out e v. v;
  }

module _ {F D : Type 0} ⦃f : Floats F⦄ (d : Doubles F D) where
  set_player_position-Backed :
      (c : Combat F) (id : ℕ) (x y : F) → Backed c → Backed (set_player_position c id x y)
  unfolding set_player_position
  set_player_position-Backed c id x y v =
      elim (Bool-cases (not (f.is_finite x) || not (f.is_finite y))) [
        | inl e ↦ rw (set_player_position, e) (ensure_player-Backed c id v)
        | inr e ↦ rw (set_player_position, e) (ensure_player-Backed c id v)
      ]

  call-Backed : (x : Call F) (c : Combat F) → Backed c → Backed (call d x c)
  unfolding reset remove_player get
  call-Backed reset_call c v = λ p. tt
  call-Backed (ensure_call id) c v = ensure_player-Backed c id v
  call-Backed (remove_call id) c v =
      erase-Backed c.fire_queue_by_player c.last_shot_seq_by_player id v
  call-Backed (respawn_call id) c v = respawn_player-Backed c id v
  call-Backed (position_call id x y) c v = set_player_position-Backed c id x y v
  call-Backed (fire_call fire) c v = enqueued-Backed c fire v
  call-Backed (tick_call tick tick_interval) c v =
      resolve_tick-keeps d tick tick_interval (λ c out. Backed c) (Backed-Keeps tick) c v

  run-Backed : (xs : List (Call F)) (c : Combat F) → Backed c → Backed (run d c xs)
  run-Backed [] c v = v
  run-Backed (x ∷ xs) c v = run-Backed xs (call d x c) (call-Backed x c v)

  new-Backed :
      (definitions : List (WeaponDefinition F)) (config : CombatConfig F)
      → Backed (new d definitions config)
  unfolding new get
  new-Backed definitions config p = tt

  -- After any calls, a shot is refused exactly if its weapon is unknown or its number is not above that
  -- of the last shot that was taken from the player; a refused shot changes nothing, not even the
  -- queues, so the comparison with the queue's back never decides.
  pub enqueue_fire_by_number :
      (definitions : List (WeaponDefinition F)) (config : CombatConfig F) (calls : List (Call F))
      (fire : FireCommand F)
      → let c = run d (new d definitions config) calls in
        enqueue_fire c fire ≡ take_by_number c fire
  enqueue_fire_by_number definitions config calls fire =
      let c = run d (new d definitions config) calls in
      enqueue_fire-Backed c fire
        (run-Backed calls (new d definitions config) (new-Backed definitions config))
