-- ===== src/Camera.antt =====
-- app/camera_proxy.py: the camera's binary protocol and the fan-out of its frames.
pub mod Frames
pub mod Queue
