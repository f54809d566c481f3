-- ===== src/Ip/Fragments/Reassembly.antt =====
-- Fragments of one datagram in `ipv4::frag`. The datagram is the first `len` bytes of a stream.
use actor_network.Prelude.{
  List, Returns, Returns-Ensures, Returns-bind, Returns-guard, Returns-if, ap, arith, drop, leb,
  length, length-drop, le→leb, ltb, not, sym, true, ℕ, ◌%◌, ◌*◌, ◌+◌, ◌-◌, ◌<◌, ◌==◌, ◌^◌, ◌||◌,
  ◌↔◌, ◌∙◌, ◌≡◌, ◌≤◌, ◌⊎◌,
}
use actor_network.Ip.{Frag, IpHdr, mf_of, offset_of}
use actor_network.Ip.Fragments.{
  data_memory, frag_merge, fresh_frag, opened_frag, stored_header, sub32,
}
use actor_network.Merger.{Merger, Segment, merge}
use actor_network.Merger.Laws.{IsMerged, merge-IsMerged}
use actor_network.Merger.Scan.{Either}
use actor_network.Merger.Segments.{Agrees, Apart, Covers, InSegment, cut}
use actor_network.Merger.Within.{Within, merge-Within}

-- What a fragment carries.
abbrev pub payload_of : IpHdr → List ℕ → List ℕ
payload_of h p = drop (h.ihl * 4) p

pub record IsFragmentOf (stream : ℕ → ℕ) (len : ℕ) (h : IpHdr) (p : List ℕ) : Type 0 where
  pub size : ℕ
  pub size_is : length p ≡ h.ihl * 4 + size
  pub payload : payload_of h p ≡ cut stream (offset_of h) size
  pub nonempty : 0 < size
  pub ends : offset_of h + size ≤ len
  pub mf_is : mf_of h ≡ ltb (offset_of h + size) len

-- What has come is of the datagram, and the last fragment is known to be in when its last byte is.
pub record IsReassembling (stream : ℕ → ℕ) (len : ℕ) (f : Frag) : Type 0 where
  pub apart : Apart 0 f.ip_data.map
  pub within : Within 1 len f.ip_data.map
  pub agrees : Agrees stream f.ip_data.map
  pub last_is : (f.last_frag_received ≡ true) ↔ Covers (len - 1) f.ip_data.map

-- The fragment `p` has been added to `f`.
pub record IsAdded (stream : ℕ → ℕ) (len : ℕ) (h : IpHdr) (p : List ℕ) (f f' : Frag) : Type 0 where
  pub reassembling : IsReassembling stream len f'
  pub covers :
      (x : ℕ)
      → Covers x f'.ip_data.map
        ↔ (InSegment x (offset_of h) (length (payload_of h p)) ⊎ Covers x f.ip_data.map)

pub fresh-IsReassembling : (stream : ℕ → ℕ) (len : ℕ) → IsReassembling stream len fresh_frag
fresh-IsReassembling stream len = record {
  apart = tt;
  within = tt;
  agrees = tt;
  last_is = (λ e. cc, λ c. elim c [ ]);
}

-- What `frag::merge` does to the state, where the header is there.
pub frag_merge-Returns :
    (P : Frag × ℕ → Type 0) (Q : Merger → Type 0) (impl_size : ℕ) (h : IpHdr) (offset : ℕ)
    (p : List ℕ) (f : Frag)
    → h.ihl * 4 ≤ length p
    → Returns (merge offset (payload_of h p) f.ip_data) Q
    → ((header : List ℕ) (data' : Merger)
        → Q data'
        → let mem_size = (length header + impl_size + data_memory impl_size data'.map) % 2 ^ 32 in
          P (
            record f { header = header; ip_data = data'; mem_size = mem_size },
            sub32 mem_size f.mem_size,
          ))
    → Returns (frag_merge impl_size h offset p f) P
unfolding frag_merge
frag_merge-Returns P Q impl_size h offset p f le merges result =
    let there = le→leb (h.ihl * 4) (length p) le in
    Returns-bind (λ header. Unit) P (stored_header h offset p f) _
      (Returns-if (λ header. Unit) (offset == 0) _ _
        (λ e. Returns-guard (λ header. Unit) (leb (h.ihl * 4) (length p)) _ there tt) (λ e. tt))
      (λ header u.
        Returns-guard P (leb (h.ihl * 4) (length p)) _ there
          (Returns-bind Q P (merge offset (payload_of h p) f.ip_data) _ merges (result header)))

module _ (stream : ℕ → ℕ) (len impl_size : ℕ) (h : IpHdr) (p : List ℕ) (f : Frag)
    (v : IsFragmentOf stream len h p) (w : IsReassembling stream len f) where
  length_payload : length (payload_of h p) ≡ v.size
  length_payload = omega (arith, length-drop (h.ihl * 4) p, v.size_is)

  payload_cut : payload_of h p ≡ cut stream (offset_of h) (length (payload_of h p))
  payload_cut = v.payload ∙ ap (cut stream (offset_of h)) (sym length_payload)

  header_there : h.ihl * 4 ≤ length p
  header_there = omega (arith, v.size_is)

  -- The flag says that the last fragment is in when the data' map has the last byte.
  last_added :
      (m : List Segment)
      → ((x : ℕ) → Covers x m ↔ Either x (offset_of h) (length (payload_of h p)) f.ip_data.map)
      → ((not (mf_of h) || f.last_frag_received) ≡ true) ↔ Covers (len - 1) m
  last_added m c =
      ground (arith, v.mf_is, c (len - 1), w.last_is, v.ends, v.nonempty, length_payload)

  -- Merging a fragment of the datagram into what has come of it faults nowhere, and leaves what has
  -- come of it with the fragment added.
  pub merged-IsAdded :
      (now : ℕ)
      → Returns
          (frag_merge impl_size h (offset_of h) p (opened_frag h now f))
          (λ r. IsAdded stream len h p f r.0)
  merged-IsAdded now =
      frag_merge-Returns _
        (λ r. IsMerged (offset_of h) (payload_of h p) f.ip_data.map r.map × Within 1 len r.map)
        impl_size h (offset_of h) p (opened_frag h now f) header_there
        (Returns-Ensures _ _ (merge (offset_of h) (payload_of h p) f.ip_data)
          (merge-IsMerged (offset_of h) (payload_of h p) f.ip_data w.apart)
          (merge-Within 1 len (offset_of h) (payload_of h p) f.ip_data
            (omega (arith, length_payload, v.nonempty), omega (arith, length_payload, v.ends))
            w.within))
        (λ header data' (m, within). record {
          reassembling = record {
            apart = m.apart;
            within = within;
            agrees = m.agrees stream payload_cut w.agrees;
            last_is = last_added data'.map m.covers;
          };
          covers = λ x. m.covers x;
        })
