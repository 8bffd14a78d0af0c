-- ===== src/Lexer/Keywords/Table.antt =====
-- fpp_lexer/src/token.rs: the table of the keywords and their spellings, sorted by spelling.
use Prim.Native.String.{String, [] as empty, ◌∷◌ as ◌push◌}
use Prim.Native.Char.{code}
use fpp_tools.Prelude.{ℕ, List, [], ◌∷◌}
use fpp_tools.Lexer.Keywords.{
  KeywordKind, action_keyword, active_keyword, activity_keyword, always_keyword, array_keyword,
  assert_keyword, async_keyword, at_keyword, base_keyword, block_keyword, bool_keyword,
  change_keyword, choice_keyword, command_keyword, component_keyword, connections_keyword,
  constant_keyword, container_keyword, cpu_keyword, default_keyword, deployment_keyword,
  diagnostic_keyword, dictionary_keyword, do_keyword, drop_keyword, else_keyword, enter_keyword,
  entry_keyword, enum_keyword, event_keyword, every_keyword, exit_keyword, expand_keyword,
  external_keyword, f32_keyword, f64_keyword, false_keyword, fatal_keyword, format_keyword,
  get_keyword, group_keyword, guard_keyword, guarded_keyword, health_keyword, high_keyword,
  hook_keyword, i16_keyword, i32_keyword, i64_keyword, i8_keyword, id_keyword, if_keyword,
  implements_keyword, import_keyword, include_keyword, initial_keyword, input_keyword,
  instance_keyword, interface_keyword, internal_keyword, locate_keyword, low_keyword,
  machine_keyword, match_keyword, module_keyword, omit_keyword, on_keyword, opcode_keyword,
  orange_keyword, output_keyword, packet_keyword, packets_keyword, param_keyword, passive_keyword,
  phase_keyword, port_keyword, priority_keyword, product_keyword, queue_keyword, queued_keyword,
  record_keyword, recv_keyword, red_keyword, ref_keyword, reg_keyword, request_keyword,
  resp_keyword, save_keyword, send_keyword, serial_keyword, set_keyword, severity_keyword,
  signal_keyword, size_keyword, sizeof_keyword, stack_keyword, state_keyword, string_keyword,
  struct_keyword, sync_keyword, system_keyword, telemetry_keyword, template_keyword, text_keyword,
  throttle_keyword, time_keyword, topology_keyword, true_keyword, type_keyword, u16_keyword,
  u32_keyword, u64_keyword, u8_keyword, unmatched_keyword, update_keyword, warning_keyword,
  with_keyword, yellow_keyword,
}

-- The code points of a text.
abbrev pub codes : String → List ℕ
codes empty = []
codes (c push s) = code c ∷ codes s

abbrev pub keywords : List (List ℕ × KeywordKind)
keywords =
    (codes "F32", f32_keyword)
    ∷ (codes "F64", f64_keyword)
    ∷ (codes "I16", i16_keyword)
    ∷ (codes "I32", i32_keyword)
    ∷ (codes "I64", i64_keyword)
    ∷ (codes "I8", i8_keyword)
    ∷ (codes "U16", u16_keyword)
    ∷ (codes "U32", u32_keyword)
    ∷ (codes "U64", u64_keyword)
    ∷ (codes "U8", u8_keyword)
    ∷ (codes "action", action_keyword)
    ∷ (codes "active", active_keyword)
    ∷ (codes "activity", activity_keyword)
    ∷ (codes "always", always_keyword)
    ∷ (codes "array", array_keyword)
    ∷ (codes "assert", assert_keyword)
    ∷ (codes "async", async_keyword)
    ∷ (codes "at", at_keyword)
    ∷ (codes "base", base_keyword)
    ∷ (codes "block", block_keyword)
    ∷ (codes "bool", bool_keyword)
    ∷ (codes "change", change_keyword)
    ∷ (codes "choice", choice_keyword)
    ∷ (codes "command", command_keyword)
    ∷ (codes "component", component_keyword)
    ∷ (codes "connections", connections_keyword)
    ∷ (codes "constant", constant_keyword)
    ∷ (codes "container", container_keyword)
    ∷ (codes "cpu", cpu_keyword)
    ∷ (codes "default", default_keyword)
    ∷ (codes "deployment", deployment_keyword)
    ∷ (codes "diagnostic", diagnostic_keyword)
    ∷ (codes "dictionary", dictionary_keyword)
    ∷ (codes "do", do_keyword)
    ∷ (codes "drop", drop_keyword)
    ∷ (codes "else", else_keyword)
    ∷ (codes "enter", enter_keyword)
    ∷ (codes "entry", entry_keyword)
    ∷ (codes "enum", enum_keyword)
    ∷ (codes "event", event_keyword)
    ∷ (codes "every", every_keyword)
    ∷ (codes "exit", exit_keyword)
    ∷ (codes "expand", expand_keyword)
    ∷ (codes "external", external_keyword)
    ∷ (codes "false", false_keyword)
    ∷ (codes "fatal", fatal_keyword)
    ∷ (codes "format", format_keyword)
    ∷ (codes "get", get_keyword)
    ∷ (codes "group", group_keyword)
    ∷ (codes "guard", guard_keyword)
    ∷ (codes "guarded", guarded_keyword)
    ∷ (codes "health", health_keyword)
    ∷ (codes "high", high_keyword)
    ∷ (codes "hook", hook_keyword)
    ∷ (codes "id", id_keyword)
    ∷ (codes "if", if_keyword)
    ∷ (codes "implements", implements_keyword)
    ∷ (codes "import", import_keyword)
    ∷ (codes "include", include_keyword)
    ∷ (codes "initial", initial_keyword)
    ∷ (codes "input", input_keyword)
    ∷ (codes "instance", instance_keyword)
    ∷ (codes "interface", interface_keyword)
    ∷ (codes "internal", internal_keyword)
    ∷ (codes "locate", locate_keyword)
    ∷ (codes "low", low_keyword)
    ∷ (codes "machine", machine_keyword)
    ∷ (codes "match", match_keyword)
    ∷ (codes "module", module_keyword)
    ∷ (codes "omit", omit_keyword)
    ∷ (codes "on", on_keyword)
    ∷ (codes "opcode", opcode_keyword)
    ∷ (codes "orange", orange_keyword)
    ∷ (codes "output", output_keyword)
    ∷ (codes "packet", packet_keyword)
    ∷ (codes "packets", packets_keyword)
    ∷ (codes "param", param_keyword)
    ∷ (codes "passive", passive_keyword)
    ∷ (codes "phase", phase_keyword)
    ∷ (codes "port", port_keyword)
    ∷ (codes "priority", priority_keyword)
    ∷ (codes "product", product_keyword)
    ∷ (codes "queue", queue_keyword)
    ∷ (codes "queued", queued_keyword)
    ∷ (codes "record", record_keyword)
    ∷ (codes "recv", recv_keyword)
    ∷ (codes "red", red_keyword)
    ∷ (codes "ref", ref_keyword)
    ∷ (codes "reg", reg_keyword)
    ∷ (codes "request", request_keyword)
    ∷ (codes "resp", resp_keyword)
    ∷ (codes "save", save_keyword)
    ∷ (codes "send", send_keyword)
    ∷ (codes "serial", serial_keyword)
    ∷ (codes "set", set_keyword)
    ∷ (codes "severity", severity_keyword)
    ∷ (codes "signal", signal_keyword)
    ∷ (codes "size", size_keyword)
    ∷ (codes "sizeof", sizeof_keyword)
    ∷ (codes "stack", stack_keyword)
    ∷ (codes "state", state_keyword)
    ∷ (codes "string", string_keyword)
    ∷ (codes "struct", struct_keyword)
    ∷ (codes "sync", sync_keyword)
    ∷ (codes "system", system_keyword)
    ∷ (codes "telemetry", telemetry_keyword)
    ∷ (codes "template", template_keyword)
    ∷ (codes "text", text_keyword)
    ∷ (codes "throttle", throttle_keyword)
    ∷ (codes "time", time_keyword)
    ∷ (codes "topology", topology_keyword)
    ∷ (codes "true", true_keyword)
    ∷ (codes "type", type_keyword)
    ∷ (codes "unmatched", unmatched_keyword)
    ∷ (codes "update", update_keyword)
    ∷ (codes "warning", warning_keyword)
    ∷ (codes "with", with_keyword)
    ∷ (codes "yellow", yellow_keyword)
    ∷ []
