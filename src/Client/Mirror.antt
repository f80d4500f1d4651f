-- ===== src/Client/Mirror.antt =====
-- The client's chunks (client/src/ChunkSyncApplier.cpp) beside what the server believes of them
-- (server/src/WorldReplication.cpp).
use devy_fps.Prelude.{
  ℕ, ◌≡◌, inl, inr, refl, ap, Bool, true, false, ◌||◌, List, [], ◌∷◌, Option, none, some, ltb,
  if◌then◌else◌, nat_eq, arith, Bool-cases, Option-cases,
}
use devy_fps.Prelude.Int.{ℤ, pos, ltb_ℤ, max_ℤ}
use devy_fps.Prelude.Map.{get, get-put, get-erase}
use devy_fps.Prelude.Sort.{sort, insert}
use devy_fps.Replication.{
  ChunkCoord, coord_eq, same_coord, same_coord_iff, ChunkRevisionEntry, PlayerReplicationState,
  WorldReplication, or_zero, revision_for, chunk_entry_less,
}
use devy_fps.Replication.Update.{holds, entries_zero, is_subscribed, subscribe, subscribe_all}
use devy_fps.Client.ChunkSync.{
  ChunkRevision, ClientChunks, revisions_of, is_some, remove_one, remove_all,
  ensure_generated_chunk, apply_one, apply_added_like,
}

abbrev pub names : List ChunkRevisionEntry → ChunkCoord → Bool
names [] k = false
names (e ∷ es) k = same_coord e.coord k || names es k

-- Every entry has the revision that `rev` gives its chunk.
abbrev pub AllAt : (ChunkCoord → ℕ) → List ChunkRevisionEntry → Type 0
AllAt rev [] = Unit {0}
AllAt rev (e ∷ es) = (e.revision ≡ rev e.coord) × AllAt rev es

names-insert :
    (e : ChunkRevisionEntry) (es : List ChunkRevisionEntry) (k : ChunkCoord)
    → names (insert chunk_entry_less e es) k ≡ (same_coord e.coord k || names es k)
unfolding insert
names-insert e [] k = refl
names-insert e (g ∷ es) k = ground (arith, names-insert e es k)

pub names-sort :
    (es : List ChunkRevisionEntry) (k : ChunkCoord)
    → names (sort chunk_entry_less es) k ≡ names es k
unfolding sort
names-sort [] k = refl
names-sort (e ∷ es) k = ground (arith, names-insert e (sort chunk_entry_less es) k, names-sort es k)

AllAt-insert :
    (rev : ChunkCoord → ℕ) (e : ChunkRevisionEntry) (es : List ChunkRevisionEntry)
    → e.revision ≡ rev e.coord
    → AllAt rev es
    → AllAt rev (insert chunk_entry_less e es)
unfolding insert
AllAt-insert rev e [] h a = (h, tt)
AllAt-insert rev e (g ∷ es) h a = ground (arith, h, a, AllAt-insert rev e es h a.1)

pub AllAt-sort :
    (rev : ChunkCoord → ℕ) (es : List ChunkRevisionEntry)
    → AllAt rev es
    → AllAt rev (sort chunk_entry_less es)
unfolding sort
AllAt-sort rev [] a = tt
AllAt-sort rev (e ∷ es) a =
    AllAt-insert rev e (sort chunk_entry_less es) a.0 (AllAt-sort rev es a.1)

pub names-entries_zero :
    (cs : List ChunkCoord) (k : ChunkCoord) → names (entries_zero cs) k ≡ holds cs k
names-entries_zero [] k = refl
names-entries_zero (c ∷ cs) k = ground (arith, names-entries_zero cs k)

-- The entries that the server sends are of the present revisions.
pub AllAt-subscribe_all :
    (w : WorldReplication) (cs : List ChunkCoord) (s : PlayerReplicationState)
    → AllAt (revision_for w) (subscribe_all w cs s).1
      × AllAt (revision_for w) (subscribe_all w cs s).2
unfolding subscribe_all
AllAt-subscribe_all w [] s = (tt, tt)
AllAt-subscribe_all w (c ∷ cs) s =
    let rest = AllAt-subscribe_all w cs (subscribe c (revision_for w c) s) in
    ground (arith, rest.0, rest.1)

-- One more entry in front of those that follow.
add_entry :
    (same one other : Bool) (r rk : ℕ) (old mid last : Option ℕ)
    → (same ≡ true → r ≡ rk)
    → mid ≡ (if same then some r else old)
    → last ≡ (if one || other then some rk else mid)
    → (last ≡ (if (same || one) || other then some rk else old))
      × (last ≡ (if one || (same || other) then some rk else old))
add_entry same one other r rk old mid last h e g = ground (arith, h, e, g)

-- What the server then believes is what it sends on top of what it believed before.
module _ (w : WorldReplication) (c : ChunkCoord) (cs : List ChunkCoord)
    (s : PlayerReplicationState) where
  abbrev entry_at : ChunkRevisionEntry
  entry_at = record { coord = c; revision = revision_for w c }

  abbrev rest_of : PlayerReplicationState × List ChunkRevisionEntry × List ChunkRevisionEntry
  rest_of = subscribe_all w cs (subscribe c (revision_for w c) s)

  sent_new :
      is_subscribed (get s.subscribed_chunks c) ≡ false
      → subscribe_all w (c ∷ cs) s ≡ (rest_of.0, entry_at ∷ rest_of.1, rest_of.2)
  unfolding subscribe_all
  sent_new e = rw e refl

  sent_changed :
      is_subscribed (get s.subscribed_chunks c) ≡ true
      → ltb (or_zero (get s.known_revisions c)) (revision_for w c) ≡ true
      → subscribe_all w (c ∷ cs) s ≡ (rest_of.0, rest_of.1, entry_at ∷ rest_of.2)
  unfolding subscribe_all
  sent_changed e g = rw (e, g) refl

  sent_nothing :
      is_subscribed (get s.subscribed_chunks c) ≡ true
      → ltb (or_zero (get s.known_revisions c)) (revision_for w c) ≡ false
      → subscribe_all w (c ∷ cs) s ≡ subscribe_all w cs s
  unfolding subscribe_all subscribe
  sent_nothing e g = rw (e, g) refl

  known-subscribe_new :
      (k : ChunkCoord)
      → is_subscribed (get s.subscribed_chunks c) ≡ false
      → get (subscribe c (revision_for w c) s).known_revisions k
        ≡ (if same_coord c k then some (revision_for w c) else get s.known_revisions k)
  unfolding subscribe
  known-subscribe_new k e = rw e (get-put s.known_revisions c k (revision_for w c))

  known-subscribe_changed :
      (k : ChunkCoord)
      → is_subscribed (get s.subscribed_chunks c) ≡ true
      → ltb (or_zero (get s.known_revisions c)) (revision_for w c) ≡ true
      → get (subscribe c (revision_for w c) s).known_revisions k
        ≡ (if same_coord c k then some (revision_for w c) else get s.known_revisions k)
  unfolding subscribe
  known-subscribe_changed k e g = rw (e, g) (get-put s.known_revisions c k (revision_for w c))

  same_revision : (k : ChunkCoord) → same_coord c k ≡ true → revision_for w c ≡ revision_for w k
  same_revision k h = ap (revision_for w) ((same_coord_iff c k).0 h)

pub known-sent :
    (w : WorldReplication) (cs : List ChunkCoord) (s : PlayerReplicationState) (k : ChunkCoord)
    → get (subscribe_all w cs s).0.known_revisions k ≡ (
        if names (subscribe_all w cs s).1 k || names (subscribe_all w cs s).2 k
        then some (revision_for w k)
        else get s.known_revisions k)
known-sent w [] s k = unfold subscribe_all in refl
known-sent w (c ∷ cs) s k =
    let t = subscribe c (revision_for w c) s in
    let join =
      add_entry (same_coord c k) (names (subscribe_all w cs t).1 k)
        (names (subscribe_all w cs t).2 k) (revision_for w c) (revision_for w k)
        (get s.known_revisions k) (get t.known_revisions k)
        (get (subscribe_all w cs t).0.known_revisions k) (same_revision w c cs s k) in
    elim (Bool-cases (is_subscribed (get s.subscribed_chunks c))) [
      | inr e ↦
          rw (sent_new w c cs s e) (join (known-subscribe_new w c cs s k e) (known-sent w cs t k)).0
      | inl e ↦ elim (Bool-cases (ltb (or_zero (get s.known_revisions c)) (revision_for w c))) [
        | inl g ↦
            rw (sent_changed w c cs s e g)
              (join (known-subscribe_changed w c cs s k e g) (known-sent w cs t k)).1
        | inr g ↦ rw (sent_nothing w c cs s e g) (known-sent w cs s k)
      ]
    ]

module _ {C : Type 0} where
  -- The world has exactly the chunks of which a revision is known.
  abbrev pub IsMatched : ClientChunks C → Type 0
  IsMatched w = (k : ChunkCoord) → is_some (get w.chunks k) ≡ is_some (get w.revisions k)

  pub revisions-remove_all :
      (es : List ChunkRevisionEntry) (w : ClientChunks C) (k : ChunkCoord)
      → get (remove_all (revisions_of es) w).revisions k
        ≡ (if names es k then none else get w.revisions k)
  unfolding remove_all
  revisions-remove_all [] w k = refl
  revisions-remove_all (e ∷ es) w k = ground (
    arith,
    revisions-remove_all es (remove_one w (record { coord = e.coord; revision = e.revision })) k,
    get-erase w.revisions e.coord k,
  )

  remove_one-IsMatched :
      (w : ClientChunks C) (e : ChunkRevision) → IsMatched w → IsMatched (remove_one w e)
  unfolding remove_one
  remove_one-IsMatched w e m k =
      ground (arith, m k, get-erase w.revisions e.coord k, get-erase w.chunks e.coord k)

  pub remove_all-IsMatched :
      (es : List ChunkRevision) (w : ClientChunks C) → IsMatched w → IsMatched (remove_all es w)
  unfolding remove_all
  remove_all-IsMatched [] w m = m
  remove_all-IsMatched (e ∷ es) w m =
      remove_all-IsMatched es (remove_one w e) (remove_one-IsMatched w e m)

  module _ (make : ℤ → ChunkCoord → C) where
    revisions-apply_one :
        (height : ℤ) (w : ClientChunks C) (e : ChunkRevision) (k : ChunkCoord)
        → get (apply_one make height w e).revisions k
          ≡ (if same_coord e.coord k then some e.revision else get w.revisions k)
    unfolding apply_one
    revisions-apply_one height w e k =
        ground (arith, get-put w.revisions e.coord k e.revision, same_coord_iff e.coord k)

    present-ensure_generated_chunk :
        (w : ClientChunks C) (c : ChunkCoord) (height : ℤ) (k : ChunkCoord)
        → is_some (get (ensure_generated_chunk make w c height).chunks k)
          ≡ (same_coord c k || is_some (get w.chunks k))
    unfolding ensure_generated_chunk
    present-ensure_generated_chunk w c height k = elim (Option-cases (get w.chunks c)) [
      | inl e ↦
          rw (ensure_generated_chunk, e)
            (ground (
              arith,
              get-put w.chunks c k (
                  make (if ltb_ℤ (pos 0) height then max_ℤ w.max_height height else w.max_height)
                    c),
            ))
      | inr (chunk, e) ↦ rw (ensure_generated_chunk, e) (ground (arith, e, same_coord_iff c k))
    ]

    apply_one-IsMatched :
        (height : ℤ) (w : ClientChunks C) (e : ChunkRevision)
        → IsMatched w
        → IsMatched (apply_one make height w e)
    unfolding apply_one
    apply_one-IsMatched height w e m k = ground (
      arith,
      m k,
      present-ensure_generated_chunk w e.coord height k,
      get-put w.revisions e.coord k e.revision,
      same_coord_iff e.coord k,
    )

    pub revisions-apply_added_like :
        (height : ℤ) (rev : ChunkCoord → ℕ) (es : List ChunkRevisionEntry) (w : ClientChunks C)
        (k : ChunkCoord)
        → AllAt rev es
        → get (apply_added_like make height (revisions_of es) w).revisions k
          ≡ (if names es k then some (rev k) else get w.revisions k)
    unfolding apply_added_like
    revisions-apply_added_like height rev [] w k a = refl
    revisions-apply_added_like height rev (e ∷ es) w k a =
        let one : ChunkRevision = record { coord = e.coord; revision = e.revision } in
        ground (
          arith,
          revisions-apply_added_like height rev es (apply_one make height w one) k a.1,
          revisions-apply_one height w one k,
          a.0,
          same_coord_iff e.coord k,
        )

    pub apply_added_like-IsMatched :
        (height : ℤ) (es : List ChunkRevision) (w : ClientChunks C)
        → IsMatched w
        → IsMatched (apply_added_like make height es w)
    unfolding apply_added_like
    apply_added_like-IsMatched height [] w m = m
    apply_added_like-IsMatched height (e ∷ es) w m =
        apply_added_like-IsMatched height es (apply_one make height w e)
          (apply_one-IsMatched height w e m)
