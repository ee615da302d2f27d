-- ===== src/Provider/Mapping/Range.antt =====
-- What memory holds when a range of a mapping is reported visible.
use mem_service.Base.{
  ℕ, ◌+◌, ◌≤◌, ◌≡◌, ◌≢◌, refl, sym, ap, ◌∙◌, Bool-cases, inl, inr, Bool, ◌==◌, if◌then◌else◌, true,
  false, ◌&&◌, Option, none, some, any_of, any_of-AllFalse, !=_false, ◌!=◌, arith,
}
use mem_service.Provider.Types.{
  Ops, Reply, Provider, Registry, Channel, MappingBinding, RangeRequest, VisibilityCompletion,
}
use mem_service.Provider.Channel.{function_of}
use mem_service.Provider.Channel.Bound.{Ready, with_ready-some, guarded-some, same_provider_eq}
use mem_service.Provider.Mapping.{
  RangeOperation, publish, invalidate, wait_visible, is_publish, range_conditions, range_function,
  range_checksum, visible_conditions, finish_range, call_range, range_request, mapping_range,
  publish_range,
}

-- What is published has the checksum.
meant_checksum :
    (publishes : Bool) (a b : ℕ) → (publishes && a != b) ≡ false → (if publishes then a else b) ≡ b
meant_checksum true a b h = !=_false a b h
meant_checksum false a b h = refl

module _ {W : Type 0} (memory : W → ℕ → ℕ) where
  -- The operations as the functions of the table, without the time that waiting wants.
  abbrev pub operation_of :
      RangeOperation → Ops W → Option (ℕ → RangeRequest → W → Reply VisibilityCompletion W)
  operation_of publish ops = ops.publish_range
  operation_of invalidate ops = ops.invalidate_range
  operation_of wait_visible ops = ops.wait_range_visible

  -- A range operation as the provider was asked for it, and its answer, which reports the range
  -- visible in the state that the call left.
  pub record Visible (reg : Registry W) (channel : Channel) (binding : MappingBinding)
      (offset len checksum timeout_ms : ℕ) (operation : RangeOperation) (w : W)
      (completion : VisibilityCompletion) (w' : W) : Type 0 where
    pub ready : Ready reg channel w
    pub operate : ℕ → RangeRequest → W → Reply VisibilityCompletion W
    pub found : function_of ready.provider.ops (operation_of operation) ≡ some operate
    pub request : RangeRequest
    pub of_mapping : request.mapping_handle ≡ binding.mapping.handle
    pub from_offset : request.offset ≡ offset
    pub of_length : request.len ≡ len
    pub expecting : request.expected_checksum ≡ checksum
    pub within_time : request.timeout_ms ≡ timeout_ms
    pub answered : (operate ready.provider.context request ready.probed).out ≡ completion
    pub left : (operate ready.provider.context request ready.probed).world ≡ w'
    pub mapped : binding.mapped ≡ true
    pub owned : binding.owner ≡ channel.provider
    pub in_bounds : offset + len ≤ binding.mapping.len
    pub not_empty : len ≢ 0
    pub no_error : completion.status ≡ 0
    pub whole : completion.visible_bytes ≡ len
    pub reported : completion.checksum ≡ checksum
    pub in_memory : range_checksum memory binding offset len w' ≡ checksum
    pub meant :
        (if is_publish operation
          then range_checksum memory binding offset len ready.probed
          else checksum)
        ≡ checksum

  finish_range-some :
      (binding : MappingBinding) (offset len checksum : ℕ) (reply : Reply VisibilityCompletion W)
      {c : VisibilityCompletion}
      → (finish_range memory binding offset len checksum reply).0 ≡ some c
      → (c.status ≡ 0)
        × (c.visible_bytes ≡ len)
        × (c.checksum ≡ checksum)
        × (range_checksum memory binding offset len reply.world ≡ checksum)
        × (reply.out ≡ c)
        × ((finish_range memory binding offset len checksum reply).1 ≡ reply.world)
  unfolding finish_range
  finish_range-some binding offset len checksum reply h =
      let conditions = visible_conditions memory binding offset len checksum reply in
      let (good, call, step) =
        guarded-some (any_of conditions) reply.world (some reply.out, reply.world) h in
      let d = any_of-AllFalse conditions good in
      (
        ground arith,
        ground arith,
        ground arith,
        !=_false _ _ d.1.1.1.1.0,
        cc call,
        ap (λ t. t.1) step,
      )

  -- The function that is called is the operation's.
  range_function-some :
      (operation : RangeOperation) (timeout_ms : ℕ) (ops : Option (Ops W))
      {f : ℕ → RangeRequest → W → Reply VisibilityCompletion W}
      → function_of ops (range_function memory operation timeout_ms) ≡ some f
      → function_of ops (operation_of operation) ≡ some f
  unfolding function_of
  range_function-some operation timeout_ms none e = absurd (ground arith)
  range_function-some publish timeout_ms (some ops) e = e
  range_function-some invalidate timeout_ms (some ops) e = e
  range_function-some wait_visible timeout_ms (some ops) {f} e =
      elim (Bool-cases (timeout_ms == 0)) [
        | inl no_time ↦ absurd (let e' : none ≡ some f = rw no_time at e in cc e')
        | inr time ↦ rw time at e
      ]

  call_range-some :
      (p : Provider W) (binding : MappingBinding) (offset len checksum timeout_ms : ℕ)
      (f : Option (ℕ → RangeRequest → W → Reply VisibilityCompletion W)) (w : W)
      {c : VisibilityCompletion}
      → (call_range memory p binding offset len checksum timeout_ms f w).0 ≡ some c
      → (c.status ≡ 0)
        × (c.visible_bytes ≡ len)
        × (c.checksum ≡ checksum)
        × (operate : ℕ → RangeRequest → W → Reply VisibilityCompletion W) × (f ≡ some operate)
        × (let reply = operate p.context (range_request binding offset len checksum timeout_ms) w in
            (range_checksum memory binding offset len reply.world ≡ checksum)
            × (reply.out ≡ c)
            × ((call_range memory p binding offset len checksum timeout_ms f w).1 ≡ reply.world))
  unfolding call_range
  call_range-some p binding offset len checksum timeout_ms none w h = absurd (ground arith)
  call_range-some p binding offset len checksum timeout_ms (some f) w h =
      let reply = f p.context (range_request binding offset len checksum timeout_ms) w in
      let (clean, whole, reported, seen, same, left) =
        finish_range-some binding offset len checksum reply h in
      (clean, whole, reported, f, refl, (seen, same, left))

  -- The completion of a range operation is the answer of the provider's function for this operation,
  -- called where the channel has just been found ready, with the handle of the mapping and the offset,
  -- length, checksum and time that were asked for; what that call leaves is left. The range lies in a
  -- mapping of the channel, the answer is of all of it and without error, and the memory of the state
  -- that the call left has the expected checksum. For publishing, the memory had it before the call
  -- too.
  pub mapping_range_lem :
      (reg : Registry W) (channel : Channel) (binding : MappingBinding)
      (offset len checksum timeout_ms : ℕ) (operation : RangeOperation) (w : W)
      {c : VisibilityCompletion}
      → (mapping_range memory reg channel binding offset len checksum timeout_ms operation w).0
        ≡ some c
      → Visible reg channel binding offset len checksum timeout_ms operation w c
          (mapping_range memory reg channel binding offset len checksum timeout_ms operation w).1
  unfolding mapping_range
  mapping_range_lem reg channel binding offset len checksum timeout_ms operation w h =
      let (r, step, call) = with_ready-some reg channel w _ h in
      let conditions = range_conditions memory r.provider channel binding offset len checksum in
      let (good, call', step') = guarded-some (any_of conditions) r.probed _ call in
      let (before, call'', step'') =
        guarded-some
          (is_publish operation && range_checksum memory binding offset len r.probed != checksum)
          r.probed _ call' in
      let d = any_of-AllFalse conditions good in
      let (clean, whole, reported, f, found, (seen, same, left)) =
        call_range-some r.provider binding offset len checksum timeout_ms
          (function_of r.provider.ops (range_function memory operation timeout_ms)) r.probed
          call'' in
      let whole_step = ap (λ t. t.1) (step ∙ step' ∙ step'') ∙ left in
      record {
        ready = r;
        operate = f;
        found = range_function-some operation timeout_ms r.provider.ops found;
        request = range_request binding offset len checksum timeout_ms;
        of_mapping = refl;
        from_offset = refl;
        of_length = refl;
        expecting = refl;
        within_time = refl;
        answered = same;
        left = sym whole_step;
        mapped = ground arith;
        owned = same_provider_eq binding.owner channel.provider (ground arith);
        in_bounds = ground arith;
        not_empty = ground arith;
        no_error = clean;
        whole = whole;
        reported = reported;
        in_memory = ap (λ w'. range_checksum memory binding offset len w') whole_step ∙ seen;
        meant = meant_checksum (is_publish operation) _ checksum before;
      }

  -- What is published was already in memory, with its checksum, when the provider was called: it
  -- cannot publish bytes that the caller did not mean.
  pub publish_range_before :
      (reg : Registry W) (channel : Channel) (binding : MappingBinding) (offset len checksum : ℕ)
      (w : W) {c : VisibilityCompletion}
      → (publish_range memory reg channel binding offset len checksum w).0 ≡ some c
      → (r : Ready reg channel w) × (range_checksum memory binding offset len r.probed ≡ checksum)
  unfolding publish_range mapping_range
  publish_range_before reg channel binding offset len checksum w h =
      let (r, step, call) = with_ready-some reg channel w _ h in
      let conditions = range_conditions memory r.provider channel binding offset len checksum in
      let (good, call', step') = guarded-some (any_of conditions) r.probed _ call in
      let (before, call'', step'') =
        guarded-some (range_checksum memory binding offset len r.probed != checksum) r.probed _
          call' in
      (r, !=_false _ _ before)
