-- ===== src/Write/Code.antt =====
-- The canonical codes of google.golang.org/grpc/codes that errors/write.go and client/*.go name.
use p4runtime_go_controller.Common.{ℕ}

abbrev pub success : ℕ
success = 0

abbrev pub unknown : ℕ
unknown = 2

abbrev pub invalid_argument : ℕ
invalid_argument = 3

abbrev pub not_found : ℕ
not_found = 5

abbrev pub already_exists : ℕ
already_exists = 6

abbrev pub permission_denied : ℕ
permission_denied = 7

abbrev pub failed_precondition : ℕ
failed_precondition = 9

abbrev pub unimplemented : ℕ
unimplemented = 12

abbrev pub unauthenticated : ℕ
unauthenticated = 16
