-- ===== src/ClusterQueue/Descs/Matching.antt =====
-- What the tests accept: the descriptors that the other node builds for them, and no others.
use mem_service.Base.{
  ℕ, ◌%◌, ◌^◌, ◌<◌, ◌≡◌, ◌↔◌, refl, true, ◌==◌, arith, sym, ◌∙◌, all_of-AllTrue, AllTrue-all_of,
  ==_iff,
}
use mem_service.ClusterQueue.Descs.{
  Desc, ObjectRecord, object_put, object_get, epoch_of, checksum_cookie, desc_matches_barrier,
  pending_object_desc_matches, object_ack_matches, pending_object_desc_tests, object_ack_tests,
  object_put_desc, ack_desc, barrier_desc,
}

-- The epoch is read back from the sequence number.
pub epoch_of-object_put_desc :
    (local_idx payload_kind payload_offset payload_len checksum epoch : ℕ)
    → local_idx < 2 ^ 15
    → epoch < 2 ^ 16
    → epoch_of (object_put_desc local_idx payload_kind payload_offset payload_len checksum epoch)
      ≡ epoch
unfolding object_put_desc
epoch_of-object_put_desc local_idx payload_kind payload_offset payload_len checksum epoch h k =
    omega arith

-- The descriptor that a node pushes for an object is the one that another node waits for by its
-- record exactly if epoch, kind, place and length are the record's and the folded checksums agree
-- (for a node index below 2 ^ 15, an epoch and a kind of 16 bits and a length of 32).
pub pending_object_desc_matches-object_put_desc :
    (local_idx kind offset len checksum epoch epoch' kind' : ℕ) (r : ObjectRecord)
    → local_idx < 2 ^ 15
    → epoch < 2 ^ 16
    → kind < 2 ^ 16
    → len < 2 ^ 32
    → (pending_object_desc_matches epoch' r kind'
          (object_put_desc local_idx kind offset len checksum epoch)
        ≡ true)
      ↔ ((epoch ≡ epoch')
          × (kind ≡ kind')
          × (offset ≡ r.object_backing_offset)
          × (len ≡ r.object_backing_len)
          × (checksum_cookie checksum ≡ checksum_cookie r.object_payload_checksum))
unfolding pending_object_desc_matches object_put_desc
pending_object_desc_matches-object_put_desc local_idx kind offset len checksum epoch epoch' kind' r
      h k l m =
    let put = object_put_desc local_idx kind offset len checksum epoch in
    let read = epoch_of-object_put_desc local_idx kind offset len checksum epoch h k in
    let same_kind : kind % 2 ^ 16 ≡ kind = omega arith in
    let same_len : len % 2 ^ 32 ≡ len = omega arith in
    (
      λ e.
          let c = all_of-AllTrue (pending_object_desc_tests epoch' r kind' put) e in
          (
            sym read ∙ (==_iff (epoch_of put) epoch').0 c.1.0,
            sym same_kind ∙ (==_iff put.flags kind').0 c.1.1.0,
            (==_iff offset r.object_backing_offset).0 c.1.1.1.0,
            sym same_len ∙ (==_iff put.payload_len r.object_backing_len).0 c.1.1.1.1.0,
            (==_iff put.cookie (checksum_cookie r.object_payload_checksum)).0 c.1.1.1.1.1.0,
          ),
      λ (e, e', f, g, c). AllTrue-all_of (pending_object_desc_tests epoch' r kind' put) (
        refl,
        (
          (==_iff (epoch_of put) epoch').1 (read ∙ e),
          (
            (==_iff put.flags kind').1 (same_kind ∙ e'),
            (
              (==_iff offset r.object_backing_offset).1 f,
              (
                (==_iff put.payload_len r.object_backing_len).1 (same_len ∙ g),
                ((==_iff put.cookie (checksum_cookie r.object_payload_checksum)).1 c, tt),
              ),
            ),
          ),
        ),
      ),
    )

-- The test for an acknowledgement accepts what is sent back for a put, and nothing else.
pub object_ack_matches_iff :
    (put ack : Desc)
    → put.desc_type ≡ object_put
    → (object_ack_matches put ack ≡ true) ↔ (ack ≡ ack_desc put)
unfolding object_ack_matches ack_desc
object_ack_matches_iff put ack h = (
  λ e.
      let c = all_of-AllTrue (object_ack_tests put ack) e in
      let kind = (==_iff ack.desc_type object_get).0 c.0 in
      let flags = (==_iff ack.flags put.flags).0 c.1.1.0 in
      let seq = (==_iff ack.seq put.seq).0 c.1.1.1.0 in
      let region = (==_iff ack.region_id put.region_id).0 c.1.1.1.1.0 in
      let len = (==_iff ack.payload_len put.payload_len).0 c.1.1.1.1.1.0 in
      let offset = (==_iff ack.payload_offset put.payload_offset).0 c.1.1.1.1.1.1.0 in
      let cookie = (==_iff ack.cookie put.cookie).0 c.1.1.1.1.1.1.1.0 in
      λ i. record {
        seq = seq i;
        region_id = region i;
        payload_len = len i;
        payload_offset = offset i;
        desc_type = kind i;
        flags = flags i;
        cookie = cookie i;
      },
  λ e. rw e (
      AllTrue-all_of (object_ack_tests put (ack_desc put)) (
        refl,
        (
          (==_iff put.desc_type object_put).1 h,
          (
            same put.flags,
            (
              same put.seq,
              (
                same put.region_id,
                (same put.payload_len, (same put.payload_offset, (same put.cookie, tt))),
              ),
            ),
          ),
        ),
      )),
)
  where
    same : (n : ℕ) → (n == n) ≡ true
    same n = (==_iff n n).1 refl

-- A node takes the barrier descriptor of another for its own round exactly if type and epoch are
-- the same, whatever the publish sequence numbers are.
pub desc_matches_barrier-barrier_desc :
    (desc_type epoch desc_type' epoch' publish_seq : ℕ)
    → epoch < 2 ^ 16
    → (desc_matches_barrier desc_type' epoch' (barrier_desc desc_type epoch publish_seq) ≡ true)
      ↔ ((desc_type ≡ desc_type') × (epoch ≡ epoch'))
unfolding desc_matches_barrier barrier_desc
desc_matches_barrier-barrier_desc desc_type epoch desc_type' epoch' publish_seq h = ground arith
