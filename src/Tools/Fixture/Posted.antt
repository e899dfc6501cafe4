-- ===== src/Tools/Fixture/Posted.antt =====
-- What tools/fixture/main.go writes, posted to the facilitator of facilitator/cmd/main.go.
use cosmos_pay.Encoding.Json.{Json}
