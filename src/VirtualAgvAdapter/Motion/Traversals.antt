-- ===== src/VirtualAgvAdapter/Motion/Traversals.antt =====
-- src/adapter/virtual-agv-adapter.ts: the edges that the vehicle is given and those that it reports
-- as traversed.
use vda_5050_lib_2_0_0_js.Prelude.{
  ℕ, ◌+◌, ◌≡◌, refl, none, some, Bool, true, false, List, [], ◌∷◌, ◌++◌, ok, arith, Bool-cases,
  both_branches, if◌then◌else◌, inl, inr, ◌⊎◌,
}
use vda_5050_lib_2_0_0_js.Types.{Double, NodePosition}
use vda_5050_lib_2_0_0_js.AgvController.Model.{TraverseEdgeContext}
use vda_5050_lib_2_0_0_js.VirtualAgvAdapter.Numbers.{Arithmetic}
use vda_5050_lib_2_0_0_js.VirtualAgvAdapter.Vehicle.{
  Vehicle, VirtualAgvAdapterOptions, Call, edge_traversed, start_driving, stop_driving,
}
use vda_5050_lib_2_0_0_js.VirtualAgvAdapter.Adapter.{VirtualAgvAdapter}
use vda_5050_lib_2_0_0_js.VirtualAgvAdapter.Motion.{
  advance_traverse, drive, arrive, move_on, drain_battery, end_position, is_low, number_of,
  get_target_speed,
}

abbrev count_traversal : Call → ℕ
count_traversal (edge_traversed context) = 1
count_traversal _ = 0

-- The edges reported.
abbrev pub reported : List Call → ℕ
reported [] = 0
reported (c ∷ calls) = count_traversal c + reported calls

reported-append :
    (calls : List Call) (c : Call) → reported (calls ++ c ∷ []) ≡ reported calls + count_traversal c
reported-append [] c = omega arith
reported-append (b ∷ calls) c = omega (arith, reported-append calls c)

reported-stop_driving :
    (now : Bool) (v : Vehicle) → reported (stop_driving now v).calls ≡ reported v.calls
unfolding stop_driving
reported-stop_driving now v = rw (reported-append, reported-append) (omega arith)

reported-start_driving :
    (vx vy : Double) (now : Bool) (v : Vehicle)
    → reported (start_driving vx vy now v).calls ≡ reported v.calls
unfolding start_driving
reported-start_driving vx vy now v = rw (reported-append, reported-append) (omega arith)

module _ (a : Arithmetic) (o : VirtualAgvAdapterOptions) where
  -- A vehicle that has no edge left has just reported this one, stands, and is at its end.
  abbrev IsThere : TraverseEdgeContext → NodePosition → VirtualAgvAdapter → Type 0
  IsThere context end e =
      (e.vehicle.state.position.x ≡ end.x)
      × (e.vehicle.state.position.y ≡ end.y)
      × (e.vehicle.state.is_driving ≡ false)

  reported-drain :
      (dx dy : Double) (v : Vehicle) → reported (drain_battery a o dx dy v).calls ≡ reported v.calls
  unfolding drain_battery
  reported-drain dx dy v = rw reported-append (omega arith)

  arrive_lem :
      (context : TraverseEdgeContext) (end : NodePosition) (d : VirtualAgvAdapter)
      → (reported (arrive a o context end d).vehicle.calls ≡ reported d.vehicle.calls + 1)
        × ((arrive a o context end d).traverse_context ≡ none)
        × IsThere context end (arrive a o context end d)
  unfolding arrive drain_battery stop_driving
  arrive_lem context end d = (
    rw (reported-append, reported-append, reported-append, reported-append, reported-append)
        (omega arith),
    refl,
    (refl, refl, refl),
  )

  move_on_lem :
      (context : TraverseEdgeContext) (alpha dx dy : Double) (d : VirtualAgvAdapter)
      → (reported (move_on a o context alpha dx dy d).vehicle.calls ≡ reported d.vehicle.calls)
        × ((move_on a o context alpha dx dy d).traverse_context ≡ d.traverse_context)
  unfolding move_on drain_battery stop_driving
  move_on_lem context alpha dx dy d = elim (Bool-cases (is_low a o d.vehicle.state)) [
    | inl low ↦ rw low (
      rw (reported-append, reported-append, reported-append, reported-append, reported-append)
          (omega arith),
      refl,
    )
    | inr high ↦ rw high (rw (reported-append, reported-append) (omega arith), refl)
  ]

  -- What becomes of a vehicle that is given an edge.
  abbrev pub Drives :
      TraverseEdgeContext → NodePosition → VirtualAgvAdapter → VirtualAgvAdapter → Type 0
  Drives context end d e =
      ((reported e.vehicle.calls ≡ reported d.vehicle.calls)
        × (e.traverse_context ≡ d.traverse_context))
      ⊎ ((reported e.vehicle.calls ≡ reported d.vehicle.calls + 1)
          × (e.traverse_context ≡ none)
          × IsThere context end e)

  drive-Drives :
      (interval : Double) (draw : ℕ) (context : TraverseEdgeContext) (end : NodePosition)
      (d : VirtualAgvAdapter)
      → Drives context end d (drive a o interval draw context end d)
  unfolding drive
  drive-Drives interval draw context end d =
      let s = d.vehicle.state in
      let tx = a.subtract end.x s.position.x in
      let ty = a.subtract end.y s.position.y in
      let alpha = a.atan2 ty tx in
      let dx = a.multiply (number_of a o s.velocity.vx) interval in
      let dy = a.multiply (number_of a o s.velocity.vy) interval in
      let distance = a.sqrt (a.add (a.square tx) (a.square ty)) in
      let speed = get_target_speed a o draw false distance context.edge.max_speed in
      let vx = a.multiply (a.cos alpha) speed in
      let vy = a.multiply (a.sin alpha) speed in
      let is_near =
        a.at_most (a.add (a.square tx) (a.square ty)) (a.add (a.square dx) (a.square dy)) in
      let there = arrive a o context end d in
      let further = move_on a o context alpha dx dy d in
      let starting : VirtualAgvAdapter = record d {
        vehicle = start_driving vx vy true d.vehicle;
      } in
      both_branches (Drives context end d) s.is_driving (if is_near then there else further)
        (if is_low a o s then d else starting)
        (both_branches (Drives context end d) is_near there further (inr (arrive_lem context end d))
          (inl (move_on_lem context alpha dx dy d)))
        (both_branches (Drives context end d) (is_low a o s) d starting (inl (refl, refl))
          (inl (reported-start_driving vx vy true d.vehicle, refl)))

  -- In a tick an edge is either kept, and not reported, or it is reported as traversed once, and
  -- gone: then the vehicle stands at the position of its end node.
  pub advance_traverse-Drives :
      (interval : Double) (draw : ℕ) (context : TraverseEdgeContext) (end : NodePosition)
      (d e : VirtualAgvAdapter)
      → d.traverse_context ≡ some context
      → end_position a o context ≡ some end
      → advance_traverse a o interval draw d ≡ ok e
      → Drives context end d e
  unfolding advance_traverse
  advance_traverse-Drives interval draw context end d e t p h =
      ground (arith, drive-Drives interval draw context end d)
