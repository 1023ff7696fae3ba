-- ===== src/Examples/Copying.antt =====
-- The COPY manager of copyman.py, and the theorems about it at concrete data.
use pg_cluster.Base.{
  All, Bool, Bytes, List, [], arith, map, none, not, ok, refl, some, true, ℕ, ◌<◌, ◌==◌, ◌∷◌, ◌≡◌,
}
use pg_cluster.Base.Int.{pos}
use pg_cluster.Copyman.Aligned.{IsRealigned, realign_lem}
use pg_cluster.Copyman.Chunks.{update_all, update_all_lem}
use pg_cluster.Copyman.Completion.{IsSendable, Takes, run_copy-returns}
use pg_cluster.Copyman.Manager.{
  Receiver, Sending, call_receiver, has_receivers, lines, protocol_receiver, run_copy, takes,
  takes_messages, wire_of,
}
use pg_cluster.Copyman.Position.{
  IsOpen, after_header, after_size, between, ends_message, follow, in_body, in_header,
  next_position,
}
use pg_cluster.Copyman.Produce.{
  Flow, IsParted, Published, count_bytes, cut_final, process_copy_data, process_copy_data-IsParted,
  publish,
}
use pg_cluster.Copyman.Realign.{realign}
use pg_cluster.Copyman.Tracking.{state_at}
use pg_cluster.Copyman.Transfer.{IsCopied, run_copy-IsCopied}
use pg_cluster.Copyman.Wire.{
  WireState, diff, enter_view, getlen, join_header, look, new_wire, scan, skip_body, update,
  update_open, wire_loop,
}
use pg_cluster.Element.Fields.{concat, join_all}
use pg_cluster.Element.Wire.{cat_messages, outgoing_bytes}
use pg_cluster.Struct.{be4, long_pack, signed_pattern, ulong_pack, ulong_unpack}

-- `CopyData.type[0].__ne__`

unfoldable pub not_data : ℕ → Bool
not_data b = not (b == 100)

-- Two messages, cut within the header of the first one and within the body of the second one
abbrev views : List Bytes
views = (100 ∷ 0 ∷ 0 ∷ []) ∷ (0 ∷ 4 ∷ 100 ∷ []) ∷ (0 ∷ 0 ∷ 0 ∷ 6 ∷ 97 ∷ []) ∷ []

update_all_lem_example :
    update_all not_data views (state_at between)
    ≡ ok (
      (follow not_data 0 between (concat views)).0,
      state_at (follow not_data 0 between (concat views)).1,
    )
update_all_lem_example = update_all_lem not_data views between tt still_open
  where
    still_open : IsOpen (follow not_data 0 between (concat views)).1
    still_open =
        unfold follow next_position ends_message after_header after_size not_data getlen
          ulong_unpack in
        tt

updated_views : update_all not_data views new_wire ≡ ok (1, state_at (in_body 0))
unfolding update_all update update_open enter_view scan wire_loop skip_body look join_header diff
    getlen not_data new_wire state_at ulong_unpack
updated_views = refl

realign_lem_example :
    IsRealigned not_data (in_header (0 ∷ [])) (realign (state_at (in_header (0 ∷ []))))
realign_lem_example =
    realign_lem not_data (in_header (0 ∷ [])) (unfold not_data in refl) (omega arith) tt

-- Two lists of lines, for a ProtocolReceiver and a CallReceiver
abbrev some_lines : List (List Bytes)
some_lines = ((97 ∷ []) ∷ []) ∷ ((98 ∷ []) ∷ []) ∷ []

abbrev two_receivers : List Receiver
two_receivers = protocol_receiver 0 [] [] ∷ call_receiver 1 none [] ∷ []

-- Each call of `send` takes two bytes.
unfoldable pub two_bytes : ℕ → ℕ → List Sending
two_bytes k i = takes 2 ∷ takes 2 ∷ takes 2 ∷ takes 2 ∷ takes 2 ∷ takes 2 ∷ takes 2 ∷ []

run_copy-returns_example :
    (run_copy (λ i. true) two_bytes (map lines some_lines) two_receivers).0 ≡ true
run_copy-returns_example =
    let two : 0 < 2 = omega arith in
    let willing : All Takes (two_bytes 0 0) =
      unfold two_bytes in (two, (two, (two, (two, (two, (two, (two, tt))))))) in
    run_copy-returns 6 (λ i. true) two_bytes some_lines two_receivers (unfold has_receivers in refl)
      (small 97, (small 98, tt)) (λ k i. unfold two_bytes in (willing, omega arith)) (λ i. refl)
  where
    small : (x : ℕ) → IsSendable (takes_messages two_receivers) 6 ((x ∷ []) ∷ [])
    small x = (
      100 ∷ 0 ∷ 0 ∷ 0 ∷ 5 ∷ x ∷ [],
      unfold wire_of takes_messages cat_messages join_all outgoing_bytes long_pack signed_pattern
            ulong_pack be4 in
          refl,
      omega arith,
    )

run_copy-IsCopied_example :
    IsCopied
      (takes_messages two_receivers)
      (map lines some_lines)
      two_receivers
      (run_copy (λ i. true) two_bytes (map lines some_lines) two_receivers).1
run_copy-IsCopied_example =
    run_copy-IsCopied (λ i. true) two_bytes (map lines some_lines) two_receivers (refl, (refl, tt))
      run_copy-returns_example

abbrev new_flow : Flow
new_flow = record { state = some new_wire; total_messages = 0; total_bytes = 0 }

-- A message, and the start of another one that is no COPY data
abbrev last_view : Bytes
last_view = 100 ∷ 0 ∷ 0 ∷ 0 ∷ 4 ∷ 99 ∷ 0 ∷ []

process_copy_data_returns :
    process_copy_data not_data last_view new_flow
    ≡ ok (
      100 ∷ 0 ∷ 0 ∷ 0 ∷ 4 ∷ [],
      some (99 ∷ 0 ∷ []),
      record { state = none; total_messages = 1; total_bytes = 5 },
    )
unfolding process_copy_data publish count_bytes cut_final update update_open enter_view scan
    wire_loop skip_body look not_data getlen ulong_unpack new_wire
process_copy_data_returns = refl

process_copy_data-IsParted_example :
    (p : Published) × (process_copy_data not_data last_view new_flow ≡ ok p)
    × IsParted last_view new_flow p
process_copy_data-IsParted_example =
    process_copy_data-IsParted not_data last_view new_flow new_wire refl (unfold new_wire in refl)

-- A size below 4 is not refused, and whether it ends a message depends on the cuts.
abbrev below_four : Bytes
below_four = 100 ∷ 0 ∷ 0 ∷ 0 ∷ 0 ∷ []

abbrev after_below_four : WireState
after_below_four = record {
  remaining_bytes = pos 0;
  size_fragment = [];
  final_view = some (0 ∷ 0 ∷ 0 ∷ 0 ∷ []);
}

uncut_below_four : update_all not_data (below_four ∷ []) new_wire ≡ ok (1, after_below_four)
unfolding update_all update update_open enter_view scan wire_loop skip_body look not_data getlen
    ulong_unpack new_wire
uncut_below_four = refl

cut_below_four :
    update_all not_data ((100 ∷ []) ∷ (0 ∷ 0 ∷ 0 ∷ 0 ∷ []) ∷ []) new_wire ≡ ok (0, after_below_four)
unfolding update_all update update_open enter_view scan wire_loop skip_body look join_header diff
    not_data getlen ulong_unpack new_wire
cut_below_four = refl
