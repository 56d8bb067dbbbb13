-- ===== src/Vless/Flow.antt =====
-- vless.go, lines 133-140: the flow of a backend as the addon of a header.
use proxy_balacer.Base.{◌%◌, Bytes, length, [], ◌∷◌}

-- A protobuf field 1 of type string; `byte(len(flow))` wraps. `nil` is the empty slice.
unfoldable pub encode_flow_addon : Bytes → Bytes
encode_flow_addon [] = []
encode_flow_addon (c ∷ flow) = 0x0a ∷ (length (c ∷ flow) % 256) ∷ c ∷ flow
