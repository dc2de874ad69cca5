-- ===== src/Serial/Windows/Names.antt =====
-- internal/serial/device_windows.go: the names of devices.
