-- ===== src/Tcp/Tcb/Reader/OutOfOrder.antt =====
-- `packet_merger` of include/nil/actor/network/packet-util.hh at sequence numbers, as the connection uses
-- it for segments out of order (`tcp_packet_merger`). The count of linearizations is left out.
use actor_network.Prelude.{
  List, Option, [], drop, if◌then◌else◌, length, none, some, ℕ, ◌&&◌, ◌++◌, ◌>>=◌, ◌∷◌,
}
use actor_network.Tcp.Seq.{TcpSeq, add, diff, seq_le, seq_lt}

abbrev pub Seg : Type 0
Seg = TcpSeq × List ℕ

abbrev pub seg_end : Seg → TcpSeq
seg_end s = add s.0 (length s.1)

pub data Scanned : Type 0 where
  covered : Scanned
  pending : List ℕ → List Seg → Scanned
  extended : List Seg → Scanned

abbrev pub keep : Seg → Scanned → Scanned
keep s covered = covered
keep s (pending p m) = pending p (s ∷ m)
keep s (extended m) = extended (s ∷ m)

-- The first loop.
unfoldable pub scan : TcpSeq → List ℕ → List Seg → Scanned
scan beg p [] = pending p []
scan beg p (s ∷ m) =
    let end = add beg (length p) in
    let further = keep s (scan beg p m) in
    if seq_le s.0 beg && seq_le end (seg_end s)
    then covered
    else if seq_le beg s.0 && seq_le (seg_end s) end
    then pending p m
    else if seq_lt beg s.0 && seq_le s.0 end && seq_le end (seg_end s)
    then pending (p ++ drop (diff end s.0) s.1) m
    else if seq_le s.0 beg && seq_le beg (seg_end s) && seq_lt (seg_end s) end
    then extended ((s.0, s.1 ++ drop (diff (seg_end s) beg) p) ∷ m)
    else further

unfoldable pub emplace : Seg → List Seg → List Seg
emplace n [] = n ∷ []
emplace n (s ∷ m) =
    if seq_lt n.0 s.0 then n ∷ s ∷ m else if seq_lt s.0 n.0 then s ∷ emplace n m else s ∷ m

-- The second loop.
unfoldable pub join_from : Seg → List Seg → Option (List Seg)
join_from s [] = some (s ∷ [])
join_from s (n ∷ m) =
    let merged = join_from (s.0, s.1 ++ drop (diff (seg_end s) n.0) n.1) m in
    let dropped = join_from s m in
    let apart = join_from n m >>= λ rest. some (s ∷ rest) in
    if seq_le s.0 n.0 && seq_le n.0 (seg_end s) && seq_lt (seg_end s) (seg_end n)
    then merged
    else if seq_le (seg_end n) (seg_end s)
    then dropped
    else if seq_lt (seg_end s) n.0
    then apart
    else none

abbrev pub join : List Seg → Option (List Seg)
join [] = some []
join (s ∷ m) = join_from s m

abbrev pub finish : TcpSeq → Scanned → List Seg → Option (List Seg)
finish beg covered m = some m
finish beg (pending p left) m = join (emplace (beg, p) left)
finish beg (extended left) m = join left

-- `insert_out_of_order`.
unfoldable pub insert_out_of_order :
    TcpSeq → List ℕ → List (TcpSeq × List ℕ) → Option (List (TcpSeq × List ℕ))
unfolding scan emplace join_from
insert_out_of_order seg p m = finish seg (scan seg p m) m
