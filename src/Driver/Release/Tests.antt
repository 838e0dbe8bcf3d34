-- ===== src/Driver/Release/Tests.antt =====
-- Thread 5 dies with a call that it sent on its stack.
