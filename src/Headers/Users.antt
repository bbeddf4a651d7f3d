-- ===== src/Headers/Users.antt =====
-- The user's name in the headers of internal/serviceconfig/headers.go: signed by the
-- controller, and passed on by the agent as it is.
