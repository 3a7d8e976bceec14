-- ===== src/Lib.antt =====
-- Verification of franka-deploy: a server that lets a policy server drive a Franka FR3 arm.
--
-- A session goes through the control routes (api/routes_control.py). They create a `ControlLoop`
-- (control_loop.py), connect it to the robot node, detect what a row of the policy's response means,
-- let a person confirm it, and start the policy thread. Each tick of that thread takes the next row of
-- the policy's chunk, turns it into joint positions, smooths, clamps and clips them, checks the
-- Cartesian fence, and sends them to the robot node. There a reference filter follows them at 1 kHz.
-- A watchdog on the measured joint velocities stops a run that oscillates.
--
-- Files:
--   Common          shared names: Booleans, lists and integers over native numbers, `Result` for calls
--                   that raise, and the arithmetic of floats
--   Safety          franka_deploy/safety: limits.py, smoothing.py, watchdog.py, workspace_bounds.py
--   Robot           franka_deploy/robot: reference_filter.py, gripper_runtime.py, robot_node.py,
--                   zmq_client.py, fr3_runtime.py
--   Schema          franka_deploy/schema: spec.py, response_detect.py, apply.py, sources.py, encode.py,
--                   client.py, serialize.py, plugins.py
--   Kinematics      franka_deploy/kinematics: fr3_kinematics.py and rotations.py; its child Chunks has the
--                   variants for whole rows and chunks
--   Control.Loop    franka_deploy/control_loop.py: the life cycle of a `ControlLoop`
--   Control.Ticks   franka_deploy/control_loop.py: the body of `_run`
--   Control.Deployment  the same ticks with the adapter of schema/apply.py and the kinematics
--   Control.Run     `_run` from its start to its end, with the telemetry that api/routes_status.py sends
--   Control.Observation  franka_deploy/control_loop.py: the state and the context of a prediction
--   Cameras         franka_deploy/cameras: manager.py, what it builds, and the devices of realsense.py
--   Api             franka_deploy/api: state.py, routes_control.py, routes_cameras.py, persist.py and, of
--                   routes_config.py, the change of the configuration; Site is the app over its files
--   DevServers      scripts/dev_motion_server.py and scripts/dev_ee_pingpong_server.py
-- A function keeps the name that it has in the code, in the module of its class. The children of these
-- modules hold the proofs, and the modules named Examples the concrete runs.
--
-- Numbers. A finite float64 is an integer multiple of a quantum, and sums, differences and comparisons
-- are those of the integers; rounding of sums, infinities and NaN are not modelled. Products, quotients,
-- literals, `round` and `np.clip` are the fields of the record `Numpy`, and `IsNumpy` states what the
-- theorems use of them. `Decimal` is an instance with four decimals, on which the definitions run.
--
-- Time and concurrency. What the clock, the network, the robot node and the other threads do comes in
-- as arguments: `Start` and `Join` for the life cycle, a `Tick` for each round of the policy thread, a
-- `Turn` for each cycle of the runtime's thread. The life cycle is a sequence of whole calls, and of the
-- ends of a thread. A run of the loop is a list of ticks, a session of the runtime a list of events. The
-- only fuel is the bound of thirty iterations that `ik` has itself.
--
-- Parameters: pylibfranka, franky and the Franka gripper, pyrealsense2, HTTP, ZMQ and the web framework;
-- the trigonometry and linear algebra of numpy (`Trigonometry`), its arrays with the image codecs
-- (`Arrays`), json.dumps, and json.loads with the plug-ins (`Loaders`). Control.Ticks takes the kinematics
-- and the adapter as functions, which Control.Deployment fills. Robot.Node takes its runtime as
-- `RuntimeCalls`.
--
-- Not modelled: the headers of the requests, the frames of the camera devices, the
-- examples of configurations, and the dashboard.
-- Where a dict is read into a dataclass, an int is kept for a float, as its value. A value of another wrong type
-- is kept by Python too, but the records here have no place for it, and their readers fail: `IsTyped`
-- (Api.Persist.Types) says which bodies are free of that. A write of a file may raise, and leaves then what its
-- `Write` says. The 5 s in which a start of the cameras waits for first frames are left out.
pub mod Common
pub mod Safety
pub mod Robot
pub mod Kinematics
pub mod Schema
pub mod Control
pub mod Api
pub mod Cameras
pub mod DevServers
