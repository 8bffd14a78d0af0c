-- ===== src/Lexer/Keywords.antt =====
-- fpp_lexer/src/token.rs: the keywords. The children have their table and the search in it.
pub mod Table
pub mod Search
use fpp_tools.Prelude.{ℕ}

pub data KeywordKind : Type 0 where
  action_keyword active_keyword activity_keyword always_keyword array_keyword : KeywordKind
  assert_keyword async_keyword at_keyword base_keyword block_keyword : KeywordKind
  bool_keyword change_keyword choice_keyword command_keyword component_keyword : KeywordKind
  connections_keyword constant_keyword container_keyword cpu_keyword : KeywordKind
  default_keyword deployment_keyword diagnostic_keyword dictionary_keyword : KeywordKind
  do_keyword drop_keyword else_keyword enter_keyword entry_keyword enum_keyword : KeywordKind
  event_keyword every_keyword exit_keyword expand_keyword external_keyword : KeywordKind
  f32_keyword f64_keyword false_keyword fatal_keyword format_keyword : KeywordKind
  get_keyword group_keyword guard_keyword guarded_keyword health_keyword : KeywordKind
  high_keyword hook_keyword i16_keyword i32_keyword i64_keyword i8_keyword : KeywordKind
  id_keyword if_keyword implements_keyword import_keyword include_keyword : KeywordKind
  initial_keyword input_keyword instance_keyword interface_keyword : KeywordKind
  internal_keyword locate_keyword low_keyword machine_keyword match_keyword : KeywordKind
  module_keyword omit_keyword on_keyword opcode_keyword orange_keyword : KeywordKind
  output_keyword packet_keyword packets_keyword param_keyword passive_keyword : KeywordKind
  phase_keyword port_keyword priority_keyword product_keyword queue_keyword : KeywordKind
  queued_keyword record_keyword recv_keyword red_keyword ref_keyword : KeywordKind
  reg_keyword request_keyword resp_keyword save_keyword send_keyword : KeywordKind
  serial_keyword set_keyword severity_keyword signal_keyword size_keyword : KeywordKind
  sizeof_keyword stack_keyword state_keyword string_keyword struct_keyword : KeywordKind
  sync_keyword system_keyword telemetry_keyword template_keyword text_keyword : KeywordKind
  throttle_keyword time_keyword topology_keyword true_keyword type_keyword : KeywordKind
  u16_keyword u32_keyword u64_keyword u8_keyword unmatched_keyword : KeywordKind
  update_keyword warning_keyword with_keyword yellow_keyword : KeywordKind

-- The order of the variants, by which the derived equality tells them apart.
unfoldable pub discriminant : KeywordKind → ℕ
discriminant action_keyword = 0
discriminant active_keyword = 1
discriminant activity_keyword = 2
discriminant always_keyword = 3
discriminant array_keyword = 4
discriminant assert_keyword = 5
discriminant async_keyword = 6
discriminant at_keyword = 7
discriminant base_keyword = 8
discriminant block_keyword = 9
discriminant bool_keyword = 10
discriminant change_keyword = 11
discriminant choice_keyword = 12
discriminant command_keyword = 13
discriminant component_keyword = 14
discriminant connections_keyword = 15
discriminant constant_keyword = 16
discriminant container_keyword = 17
discriminant cpu_keyword = 18
discriminant default_keyword = 19
discriminant deployment_keyword = 20
discriminant diagnostic_keyword = 21
discriminant dictionary_keyword = 22
discriminant do_keyword = 23
discriminant drop_keyword = 24
discriminant else_keyword = 25
discriminant enter_keyword = 26
discriminant entry_keyword = 27
discriminant enum_keyword = 28
discriminant event_keyword = 29
discriminant every_keyword = 30
discriminant exit_keyword = 31
discriminant expand_keyword = 32
discriminant external_keyword = 33
discriminant f32_keyword = 34
discriminant f64_keyword = 35
discriminant false_keyword = 36
discriminant fatal_keyword = 37
discriminant format_keyword = 38
discriminant get_keyword = 39
discriminant group_keyword = 40
discriminant guard_keyword = 41
discriminant guarded_keyword = 42
discriminant health_keyword = 43
discriminant high_keyword = 44
discriminant hook_keyword = 45
discriminant i16_keyword = 46
discriminant i32_keyword = 47
discriminant i64_keyword = 48
discriminant i8_keyword = 49
discriminant id_keyword = 50
discriminant if_keyword = 51
discriminant implements_keyword = 52
discriminant import_keyword = 53
discriminant include_keyword = 54
discriminant initial_keyword = 55
discriminant input_keyword = 56
discriminant instance_keyword = 57
discriminant interface_keyword = 58
discriminant internal_keyword = 59
discriminant locate_keyword = 60
discriminant low_keyword = 61
discriminant machine_keyword = 62
discriminant match_keyword = 63
discriminant module_keyword = 64
discriminant omit_keyword = 65
discriminant on_keyword = 66
discriminant opcode_keyword = 67
discriminant orange_keyword = 68
discriminant output_keyword = 69
discriminant packet_keyword = 70
discriminant packets_keyword = 71
discriminant param_keyword = 72
discriminant passive_keyword = 73
discriminant phase_keyword = 74
discriminant port_keyword = 75
discriminant priority_keyword = 76
discriminant product_keyword = 77
discriminant queue_keyword = 78
discriminant queued_keyword = 79
discriminant record_keyword = 80
discriminant recv_keyword = 81
discriminant red_keyword = 82
discriminant ref_keyword = 83
discriminant reg_keyword = 84
discriminant request_keyword = 85
discriminant resp_keyword = 86
discriminant save_keyword = 87
discriminant send_keyword = 88
discriminant serial_keyword = 89
discriminant set_keyword = 90
discriminant severity_keyword = 91
discriminant signal_keyword = 92
discriminant size_keyword = 93
discriminant sizeof_keyword = 94
discriminant stack_keyword = 95
discriminant state_keyword = 96
discriminant string_keyword = 97
discriminant struct_keyword = 98
discriminant sync_keyword = 99
discriminant system_keyword = 100
discriminant telemetry_keyword = 101
discriminant template_keyword = 102
discriminant text_keyword = 103
discriminant throttle_keyword = 104
discriminant time_keyword = 105
discriminant topology_keyword = 106
discriminant true_keyword = 107
discriminant type_keyword = 108
discriminant u16_keyword = 109
discriminant u32_keyword = 110
discriminant u64_keyword = 111
discriminant u8_keyword = 112
discriminant unmatched_keyword = 113
discriminant update_keyword = 114
discriminant warning_keyword = 115
discriminant with_keyword = 116
discriminant yellow_keyword = 117
