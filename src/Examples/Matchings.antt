-- ===== src/Examples/Matchings.antt =====
-- fpp_analysis/src/semantics/resolve_topology/matched_port_numbering.rs: the theorems on matchings at a
-- concrete matching.
use fpp_tools.Prelude.{
  ℕ, ◌%◌, ◌≡◌, ◌≢◌, refl, false, List, [], ◌∷◌, some, pos, ◌==◌, ==_iff, leb, ok, err,
}
use fpp_tools.Topology.Matching.{PortInstance, input, output, Numbers, no_matching_instance}
use fpp_tools.Topology.Matching.Instances.{Connections, numbering, handle_port_matching}
use fpp_tools.Topology.Matching.Instances.Maps.{Matches}
use fpp_tools.Topology.Matching.Instances.Numbered.{OneNumber, Keeps}
use fpp_tools.Topology.Matching.Instances.Handled.{
  handle_port_matching-OneNumber, handle_port_matching-finds,
}

-- A connection leads to the instance of its last digit.
abbrev connections : Connections ℕ ℕ
connections = record {
  same = ◌==◌;
  not_after = leb;
  is_unmatched = λ c. false;
  same_instance = ◌==◌;
  other_instance = λ pi c. some (c % 10);
}

abbrev out_port : PortInstance
out_port = record { direction = some output; port_array_size = pos 4 }

abbrev in_port : PortInstance
in_port = record { direction = some input; port_array_size = pos 4 }

abbrev at_out : List ℕ
at_out = 12 ∷ 11 ∷ []

abbrev at_in : List ℕ
at_in = 21 ∷ 22 ∷ []

-- One connection has number 2 at its output port.
abbrev before : Numbers ◌==◌
before = record { from_port_number_map = (11, pos 2) ∷ []; to_port_number_map = [] }

abbrev afterwards : Numbers ◌==◌
afterwards = record {
  from_port_number_map = (12, pos 0) ∷ (11, pos 2) ∷ [];
  to_port_number_map = (22, pos 0) ∷ (21, pos 2) ∷ [];
}

handled : handle_port_matching connections before out_port at_out in_port at_in ≡ ok afterwards
unfolding handle_port_matching fpp_tools.Topology.PortNumbers.get_port_number
handled = refl

handle_port_matching-OneNumber_example :
    ((i c1 c2 : ℕ)
      → Matches connections ==_iff out_port at_out i c1
      → Matches connections ==_iff in_port at_in i c2
      → OneNumber connections ==_iff ==_iff out_port in_port afterwards c1 c2)
    × Keeps connections ==_iff ==_iff before afterwards
handle_port_matching-OneNumber_example =
    handle_port_matching-OneNumber connections ==_iff ==_iff before out_port in_port at_out at_in
      handled

handle_port_matching-finds_example :
    handle_port_matching connections before out_port at_out in_port at_in
    ≢ err (numbering no_matching_instance)
handle_port_matching-finds_example =
    handle_port_matching-finds connections ==_iff ==_iff before out_port in_port at_out at_in
