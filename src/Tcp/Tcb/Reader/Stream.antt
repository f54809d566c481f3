-- ===== src/Tcp/Tcb/Reader/Stream.antt =====
-- What the receiving side gives to its reader is the stream that the peer sends.
use actor_network.Prelude.{
  Bool, Bool-cases, List, [], ap, append-nil, append_assoc, ap₂, arith, drop, drop-drop, drop-take,
  false, inl, inr, length, ltb, ltb→lt, lt→ltb, not, refl, subst, sym, take, take-add, true, ℕ, ◌%◌,
  ◌++◌, ◌+◌, ◌-◌, ◌<◌, ◌^◌, ◌∙◌, ◌∷◌, ◌≡◌, ◌≤◌,
}
use actor_network.Packet.Impl.{size}
use actor_network.Tcp.Seq.{TcpSeq, add, diff, seq_ge, seq_gt, seq_le, seq_lt}
use actor_network.Tcp.Seq.Order.{add-add, diff-add, seq_lt-add}
use actor_network.Tcp.Tcb.{Receive, Tcb, signal_data_received}
use actor_network.Tcp.Tcb.Reader.{joined, merge_loop, merge_out_of_order, should_send_ack}
use actor_network.Tcp.Tcb.Segment.{accept_text}

pub joined-append : (ps : List (List ℕ)) (p : List ℕ) → joined (ps ++ p ∷ []) ≡ joined ps ++ p
joined-append [] p = append-nil p
joined-append (q ∷ ps) p = ap (◌++◌ q) (joined-append ps p) ∙ sym (append_assoc q (joined ps) p)

seq_le_lem : (s q : TcpSeq) → seq_le s q ≡ not (seq_lt q s)
unfolding seq_le seq_gt
seq_le_lem s q = refl

seq_ge_lem : (s q : TcpSeq) → seq_ge s q ≡ not (seq_lt s q)
unfolding seq_ge
seq_ge_lem s q = refl

-- The peer's stream has `bytes` from the number `start` on; the reader has taken `taken` of it.
module _ (start : TcpSeq) (bytes taken : List ℕ) where
  -- A segment is a piece of the stream.
  pub record Piece (seg : TcpSeq × List ℕ) : Type 0 where
    pub offset : ℕ
    pub starts : seg.0 ≡ add start offset
    pub fits : offset + length seg.1 ≤ length bytes
    pub text : seg.1 ≡ take (length seg.1) (drop offset bytes)

  abbrev pub Pieces : List (TcpSeq × List ℕ) → Type 0
  Pieces [] = Unit
  Pieces (seg ∷ segs) = Piece seg × Pieces segs

  -- The first `n` bytes are received.
  pub record Got (n : ℕ) (r : Receive) : Type 0 where
    pub order : taken ++ joined r.received ≡ take n bytes
    pub edge : r.next ≡ add start n
    pub inside : n ≤ length bytes

  -- The earliest segment that waits leaves a gap.
  abbrev pub Gap : ℕ → List (TcpSeq × List ℕ) → Type 0
  Gap n [] = Unit
  Gap n (seg ∷ segs) = seq_lt (add start n) seg.0 ≡ true

  -- Some number of bytes, `n` at least, is received, and what waits is pieces of the rest.
  pub record Reads (n : ℕ) (r : Receive) : Type 0 where
    pub upto : ℕ
    pub reached : n ≤ upto
    pub got : Got upto r
    pub pieces : Pieces r.out_of_order
    pub gap : Gap upto r.out_of_order

  module _ (small : length bytes < 2 ^ 31) where
    rest_of_segment :
        (n : ℕ) (seg : TcpSeq × List ℕ) (v : Piece seg)
        → v.offset ≤ n
        → n ≤ v.offset + length seg.1
        → drop (n - v.offset) seg.1 ≡ take (v.offset + length seg.1 - n) (drop n bytes)
    rest_of_segment n seg v h k =
        let cut = n - v.offset in
        let left = v.offset + length seg.1 - n in
        let sized : length seg.1 ≡ cut + left = omega arith in
        ap (drop cut) (v.text ∙ ap (λ i. take i (drop v.offset bytes)) sized)
        ∙ drop-take cut left (drop v.offset bytes)
        ∙ ap (take left) (drop-drop cut v.offset bytes ∙ ap (λ i. drop i bytes) (omega arith))

    appended-Got :
        (n : ℕ) (r : Receive) (seg : TcpSeq × List ℕ) (v : Piece seg) (size : ℕ)
        → Got n r
        → v.offset ≤ n
        → n ≤ v.offset + length seg.1
        → Got (v.offset + length seg.1) (record r {
          next = add r.next (length seg.1 - (n - v.offset));
          data_size = size;
          received = r.received ++ drop (n - v.offset) seg.1 ∷ [];
        })
    appended-Got n r seg v size g h k = record {
      order =
          ap (◌++◌ taken) (joined-append r.received (drop (n - v.offset) seg.1))
          ∙ sym (append_assoc taken (joined r.received) (drop (n - v.offset) seg.1))
          ∙ ap₂ (λ xs ys. xs ++ ys) g.order (rest_of_segment n seg v h k)
          ∙ sym (take-add n (v.offset + length seg.1 - n) bytes)
          ∙ ap (λ i. take i bytes) (omega arith);
      edge =
          ap (λ s. add s (length seg.1 - (n - v.offset))) g.edge
          ∙ add-add start n (length seg.1 - (n - v.offset))
          ∙ ap (add start) (omega arith);
      inside = v.fits;
    }

    -- Moving the segments that continue the data leaves the first bytes of the stream, in order and
    -- without a gap or a repetition, and RCV.NXT counts them.
    pub merge_loop-Reads :
        (m : List (TcpSeq × List ℕ)) (n : ℕ) (r : Receive) (moved : Bool)
        → Pieces m
        → Got n r
        → Reads n (merge_loop m r moved).1
    unfolding merge_loop
    merge_loop-Reads [] n r moved v g = record {
      upto = n;
      reached = omega arith;
      got = record { order = g.order; edge = g.edge; inside = g.inside };
      pieces = tt;
      gap = tt;
    }
    merge_loop-Reads (seg ∷ m) n r moved v g =
        let off = v.0.offset in
        let len = length seg.1 in
        let end = ap (λ s. add s len) v.0.starts ∙ add-add start off len in
        let later =
          ap₂ (λ a b. seq_lt a b) g.edge v.0.starts
          ∙ seq_lt-add start n off (omega (arith, g.inside)) (omega (arith, v.0.fits)) in
        let before =
          ap₂ (λ a b. seq_lt a b) g.edge end
          ∙ seq_lt-add start n (off + len) (omega (arith, g.inside)) (omega (arith, v.0.fits)) in
        let starts_later = seq_le_lem seg.0 r.next ∙ ap not later in
        let ends_before = seq_ge_lem r.next (add seg.0 len) ∙ ap not before in
        elim (Bool-cases (ltb n off)) [
          | inl far ↦
              rw
                (
                  starts_later ∙ ap not far,
                  ends_before ∙ ap not (lt→ltb n (off + len) (omega (arith, ltb→lt n off far))),
                )
                (record {
                  upto = n;
                  reached = omega arith;
                  got = record { order = g.order; edge = g.edge; inside = g.inside };
                  pieces = v;
                  gap = ap (λ a. seq_lt a seg.0) (sym g.edge) ∙ later ∙ far;
                })
          | inr near ↦
              let near_le : off ≤ n = ground arith in
              let trim =
                ap₂ (λ a b. diff a b) g.edge v.0.starts
                ∙ diff-add start off n near_le (omega (arith, g.inside)) in
              elim (Bool-cases (ltb n (off + len))) [
                | inl more ↦
                    let inside = ltb→lt n (off + len) more in
                    let size = (r.data_size + length (drop (n - off) seg.1)) % 2 ^ 64 in
                    let grown = record r {
                      next = add r.next (length seg.1 - (n - off));
                      data_size = size;
                      received = r.received ++ drop (n - off) seg.1 ∷ [];
                    } in
                    let rest =
                      merge_loop-Reads m (off + len) grown true v.1
                        (appended-Got n r seg v.0 size g near_le (omega (arith, inside))) in
                    rw (starts_later ∙ ap not near, before ∙ more, trim)
                      (record {
                        upto = rest.upto;
                        reached = omega (arith, rest.reached);
                        got = rest.got;
                        pieces = rest.pieces;
                        gap = rest.gap;
                      })
                | inr old ↦
                    rw (starts_later ∙ ap not near, before ∙ old, ends_before ∙ ap not old)
                      (merge_loop-Reads m n r moved v.1 g)
              ]
        ]

    same_stream :
        (n : ℕ) (r r' : Receive)
        → r'.next ≡ r.next
        → r'.received ≡ r.received
        → r'.out_of_order ≡ r.out_of_order
        → Reads n r
        → Reads n r'
    same_stream n r r' e f g v = record {
      upto = v.upto;
      reached = v.reached;
      got = record {
        order = ap (λ ps. taken ++ joined ps) f ∙ v.got.order;
        edge = e ∙ v.got.edge;
        inside = v.got.inside;
      };
      pieces = subst Pieces (sym g) v.pieces;
      gap = subst (Gap v.upto) (sym g) v.gap;
    }

    -- A segment with text that continues what was received gives the reader the text, and then whatever
    -- waited and now continues it: the first bytes of the stream, at least up to the end of the text, in
    -- order and without a gap or a repetition. RCV.NXT counts them, and the earliest segment that still
    -- waits leaves a gap. The segments that wait and the text are pieces of the stream, which has less
    -- than 2 ^ 31 bytes.
    pub accept_text-Reads :
        (now n : ℕ) (p : List ℕ) (t : Tcb)
        → Got n t.rcv
        → Pieces t.rcv.out_of_order
        → 0 < length p
        → n + length p ≤ length bytes
        → p ≡ take (length p) (drop n bytes)
        → Reads (n + length p) (accept_text now p t).1.rcv
    unfolding accept_text merge_out_of_order should_send_ack signal_data_received
    accept_text-Reads now n [] t g v pos fits text = absurd (omega arith)
    accept_text-Reads now n (x ∷ xs) t g v pos fits text =
        let p = x ∷ xs in
        let size = (t.rcv.data_size + length p) % 2 ^ 64 in
        let r = record t.rcv {
          next = add t.rcv.next (length p);
          data_size = size;
          received = t.rcv.received ++ p ∷ [];
        } in
        let text_at_end : Got (n + length p) r = record {
          order =
              ap (◌++◌ taken) (joined-append t.rcv.received p)
              ∙ sym (append_assoc taken (joined t.rcv.received) p)
              ∙ ap₂ (λ a b. a ++ b) g.order text
              ∙ sym (take-add n (length p) bytes);
          edge = ap (λ s. add s (length p)) g.edge ∙ add-add start n (length p);
          inside = fits;
        } in
        let merged_reads =
          merge_loop-Reads t.rcv.out_of_order (n + length p) r false v text_at_end in
        elim (Bool-cases (merge_loop t.rcv.out_of_order r false).0) [
          | inl e ↦ rw e (same_stream (n + length p) _ _ refl refl refl merged_reads)
          | inr e ↦ rw e (same_stream (n + length p) _ _ refl refl refl merged_reads)
        ]
